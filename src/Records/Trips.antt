-- ===== src/Records/Trips.antt =====
-- Servers that are stored and read again.
use mathlib.Core.Option
use mathlib.Core.Path.{subst}
use sukumad.Prelude.{
  Bool-cases, Option-cases, find, any, update_where, find-update_where, find-update_where_ne,
  some-of_any, ℤ, pos, eq_ℤ, eq_ℤ_iff, eq_ℤ_refl, suc, ◌≡◌, refl, sym, ap, ◌∙◌, ◌≢◌, inl, inr, Bool,
  true, false, not, ◌&&◌, Option, none, some, List, [], ◌∷◌, ◌++◌, arith,
}
use sukumad.Text.{Bytes, text_eq}
use sukumad.Types.{Server}
use sukumad.Store.Laws.{exec-fine, query-fine}
use sukumad.Store.{no_rows, constraint, ok, err, World, one_row}
use sukumad.Records.Servers.{
  has_server_id, get_server_by_id, is_auth_method, new_server, insert_server, create_server,
  updated_server, write_server, update_server,
}

find-append {ℓ} :
    {R : Type ℓ} (p : R → Bool) (r : R) (rs : List R)
    → find p rs ≡ none
    → p r ≡ true
    → find p (rs ++ r ∷ []) ≡ some r
find-append p r [] e h = ground arith
find-append p r (x ∷ xs) e h = ground (arith, find-append p r xs)

ok-injective : (a b : Server) → ok a ≡ ok b → a ≡ b
ok-injective a b e = cc e

find-kept {ℓ} :
    {R : Type ℓ} (p : R → Bool) {r : R} (rs ss : List R)
    → find p rs ≡ some r
    → find p (rs ++ ss) ≡ some r
find-kept p [] ss e = absurd (cc)
find-kept p {r} (x ∷ xs) ss e = ground (arith, find-kept p {r = r} xs ss)

one_row-some : (o : Option Server) (r : Server) → one_row o ≡ ok r → o ≡ some r
one_row-some none r e = absurd (cc)
one_row-some (some x) r e = ap some (ok-injective x r e)

-- The server can be read, and so can all that could be read before.
IsStored : Server → World → World → Type 0
IsStored t w w' =
    ((get_server_by_id t.id w').0 ≡ ok t)
    × ((i : ℤ) (r : Server) → (get_server_by_id i w).0 ≡ ok r → (get_server_by_id i w').0 ≡ ok r)

-- A server that is stored without an error, while the connection holds, is read back as the answer
-- said; and every server that could be read before is read as before.
pub create_server-get :
    (uid : Bytes) (s t : Server) (w : World)
    → w.faults ≡ []
    → (create_server uid s w).0 ≡ ok t
    → let w' = (create_server uid s w).1 in
      ((get_server_by_id t.id w').0 ≡ ok t)
      × ((i : ℤ) (r : Server) → (get_server_by_id i w).0 ≡ ok r → (get_server_by_id i w').0 ≡ ok r)
unfolding create_server insert_server get_server_by_id IsStored
create_server-get uid s t w f e =
    let i = suc w.db.server_seq in
    let row = new_server w.now i uid s in
    let done = exec-fine (insert_server uid s) w f in
    let valid =
      is_auth_method s.auth_method
      && not
          (any (λ (r : Server). elim r.uid [ none ↦ false | some u ↦ text_eq u uid ]) w.db.servers)
      && not (any (has_server_id (pos i)) w.db.servers) in
    let failed : valid ≡ false → (create_server uid s w).0 ≡ err constraint =
      λ h. ap (λ x. x.0) done ∙ rw h refl in
    elim (Bool-cases valid) [
      | inr h ↦ absurd (ground (arith, failed h, e))
      | inl h ↦
          let n : find (has_server_id (pos i)) w.db.servers ≡ none =
            ground (arith, h, some-of_any (has_server_id (pos i)) w.db.servers) in
          let rows = w.db.servers ++ row ∷ [] in
          let runs : create_server uid s w ≡ (
            ok row,
            record w { db = record w.db { servers = rows; server_seq = i }; faults = [] },
          ) =
            done ∙ rw h refl in
          let same : row ≡ t = ok-injective row t (sym (ap (λ x. x.0) runs) ∙ e) in
          let w' : World = record w {
            db = record w.db { servers = rows; server_seq = i };
            faults = [];
          } in
          let reads =
            λ (j : ℤ). query-fine (λ now db. one_row (find (has_server_id j) db.servers)) in
          subst (λ x. IsStored t w x.1) (sym runs)
            (
              subst (λ u. (get_server_by_id u.id w').0 ≡ ok u) same
                  (reads row.id w' refl
                    ∙ ap one_row
                        (find-append (has_server_id row.id) row w.db.servers n (eq_ℤ_refl row.id))),
              λ j r h.
                  reads j w' refl
                  ∙ ap one_row (
                      find-kept (has_server_id j) w.db.servers (row ∷ []) (
                        one_row-some (find (has_server_id j) w.db.servers) r
                          (sym (reads j w f) ∙ h))),
            )
    ]

differs : (a b i : ℤ) → a ≢ b → eq_ℤ i a ≡ true → eq_ℤ i b ≡ false
differs a b i ne k = ground (arith, ne, k, eq_ℤ_iff i a, eq_ℤ_iff i b)

none-any {ℓ} : {R : Type ℓ} (p : R → Bool) (rs : List R) → find p rs ≡ none → any p rs ≡ false
none-any p [] e = refl
none-any p (r ∷ rs) e = ground (arith, none-any p rs)

some-any {ℓ} :
    {R : Type ℓ} (p : R → Bool) {r : R} (rs : List R) → find p rs ≡ some r → any p rs ≡ true
some-any p [] e = absurd (cc)
some-any p {r} (x ∷ xs) e = ground (arith, some-any p {r = r} xs)

IsChanged : Server → World → World → Type 0
IsChanged s w w' =
    ((old : Server) × ((get_server_by_id s.id w).0 ≡ ok old)
      × ((get_server_by_id s.id w').0
          ≡ ok (record s {
            id = old.id;
            uid = old.uid;
            created = old.created;
            updated = some w.now;
          })))
    × ((i : ℤ) → s.id ≢ i → (get_server_by_id i w').0 ≡ (get_server_by_id i w).0)

-- A server that is changed without an error keeps its number, its uid and its time of creation,
-- takes everything else from the request, and no other server changes.
pub update_server-get :
    (s t : Server) (w : World)
    → w.faults ≡ []
    → (update_server s w).0 ≡ ok t
    → let w' = (update_server s w).1 in
      ((old : Server) × ((get_server_by_id s.id w).0 ≡ ok old)
        × ((get_server_by_id s.id w').0
            ≡ ok (record s {
              id = old.id;
              uid = old.uid;
              created = old.created;
              updated = some w.now;
            })))
      × ((i : ℤ) → s.id ≢ i → (get_server_by_id i w').0 ≡ (get_server_by_id i w).0)
unfolding update_server write_server get_server_by_id updated_server IsChanged
update_server-get s t w f e =
    let p = has_server_id s.id in
    let done = exec-fine (write_server s) w f in
    elim (Option-cases (find p w.db.servers)) [
      | inl n ↦
          let failed : (update_server s w).0 ≡ err no_rows =
            ap (λ x. x.0) done ∙ rw (none-any p w.db.servers n) refl in
          absurd (ground (arith, failed, e))
      | inr (old, n) ↦ elim (Bool-cases (is_auth_method s.auth_method)) [
        | inr h ↦
            let failed : (update_server s w).0 ≡ err constraint =
              ap (λ x. x.0) done ∙ rw (some-any p w.db.servers n) (rw h refl) in
            absurd (ground (arith, failed, e))
        | inl h ↦
            let rows = update_where p (updated_server w.now s) w.db.servers in
            let w' : World = record w { db = record w.db { servers = rows }; faults = [] } in
            let runs : update_server s w ≡ (ok (record s { updated = some w.now }), w') =
              done ∙ rw (some-any p w.db.servers n) (rw h refl) in
            let reads =
              λ (j : ℤ). query-fine (λ now db. one_row (find (has_server_id j) db.servers)) in
            let found = find-update_where p (updated_server w.now s) w.db.servers (λ r. refl) in
            subst (λ x. IsChanged s w x.1) (sym runs)
              (
                (
                  old,
                  reads s.id w f ∙ ap one_row n,
                  reads s.id w' refl
                      ∙ ap one_row (found ∙ ap (Option.map (updated_server w.now s)) n),
                ),
                λ j ne.
                    reads j w' refl
                    ∙ ap one_row (
                        find-update_where_ne (has_server_id j) p (updated_server w.now s)
                          w.db.servers (λ r k. differs s.id j r.id ne k)
                          (λ r k. differs s.id j r.id ne k))
                    ∙ sym (reads j w f),
              )
      ]
    ]
