-- ===== src/Protocol/Json.antt =====
-- A value of `encoding/json`, as an `interface{}` holds one. A number is its text.
use qpub_go.Prelude.{Bool}
use qpub_go.Prelude.Text.{Text}

mutual
  pub data Json : Type 0 where
    null : Json
    boolean : Bool → Json
    number text : Text → Json
    array : Items → Json
    object : Members → Json

  pub data Items : Type 0 where
    no_items : Items
    item : Json → Items → Items

  pub data Members : Type 0 where
    no_members : Members
    member : Text → Json → Members → Members
