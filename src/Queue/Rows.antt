-- ===== src/Queue/Rows.antt =====
-- What a statement that updates one delivery leaves in the table.
use sukumad.Prelude.{
  Bool-cases, find-update_where, find-update_where_ne, ℤ, eq_ℤ, eq_ℤ_iff, ◌≡◌, sym, ap, ◌∙◌, ◌≢◌,
  inl, inr, true, false,
}
use sukumad.Types.{Delivery}
use sukumad.Store.{Db}
use sukumad.Queue.Moves.{has_id, update_delivery, get_delivery}
use mathlib.Core.Option

has_id_keep :
    (i : ℤ) (f : Delivery → Delivery)
    → ((d : Delivery) → (f d).id ≡ d.id)
    → (d : Delivery) → has_id i (f d) ≡ has_id i d
has_id_keep i f k d = ap (λ j. eq_ℤ j i) (k d)

-- The row that was updated.
pub get_delivery-update_delivery :
    (i : ℤ) (f : Delivery → Delivery) (db : Db)
    → ((d : Delivery) → (f d).id ≡ d.id)
    → get_delivery i (update_delivery i f db) ≡ Option.map f (get_delivery i db)
unfolding update_delivery
get_delivery-update_delivery i f db k =
    find-update_where (has_id i) f db.deliveries (has_id_keep i f k)

has_id_ne : (i j : ℤ) (d : Delivery) → i ≢ j → has_id i d ≡ true → has_id j d ≡ false
has_id_ne i j d ne h = elim (Bool-cases (has_id j d)) [
  | inl e ↦ absurd (ne (sym ((eq_ℤ_iff d.id i).0 h) ∙ (eq_ℤ_iff d.id j).0 e))
  | inr e ↦ e
]

-- Every other row.
pub get_delivery-update_delivery_ne :
    (i j : ℤ) (f : Delivery → Delivery) (db : Db)
    → i ≢ j
    → ((d : Delivery) → (f d).id ≡ d.id)
    → get_delivery j (update_delivery i f db) ≡ get_delivery j db
unfolding update_delivery
get_delivery-update_delivery_ne i j f db ne k =
    find-update_where_ne (has_id j) (has_id i) f db.deliveries (λ d h. has_id_ne i j d ne h)
      (λ d h. has_id_keep j f k d ∙ has_id_ne i j d ne h)
