-- ===== src/Types/Values.antt =====
-- A decoded JSON value: Go's `any` after json.Unmarshal. A number keeps its text.
use sukumad.Prelude.{if◌then◌else◌, Bool, Option, none, some}
use sukumad.Text.{Bytes, text_eq}

mutual
  pub data Json : Type 0 where
    null : Json
    bool : Bool → Json
    num : Bytes → Json
    text : Bytes → Json
    arr : Items → Json
    obj : Members → Json

  pub data Items : Type 0 where
    end : Items
    item : Json → Items → Items

  pub data Members : Type 0 where
    last : Members
    member : Bytes → Json → Members → Members

-- `m[key]` of a decoded object; the decoder keeps the last of two members with one name.
unfoldable pub get_member : Bytes → Members → Option Json
get_member key last = none
get_member key (member k v ms) = elim (get_member key ms) [
  | some w ↦ some w
  | none ↦ if text_eq k key then some v else none
]
