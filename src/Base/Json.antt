-- ===== src/Base/Json.antt =====
-- The JSON-safe values that records carry in `dict[str, Any]` fields.
pub mod Dict
use contract_evidence_os.Prelude.{String, Bool}
use contract_evidence_os.Prelude.Int.{ℤ}
use contract_evidence_os.Base.Float.{Float}

mutual
  pub data Json : Type 0 where
    null : Json
    boolean : Bool → Json
    integer : ℤ → Json
    number : Float → Json
    text : String → Json
    array : Items → Json
    object : Members → Json

  pub data Items : Type 0 where
    nil : Items
    item : Json → Items → Items

  pub data Members : Type 0 where
    end : Members
    member : String → Json → Members → Members
