-- ===== src/Attachment/Newest.antt =====
-- The slot that the query of attachment.get_download_ticket in internal/server/attachment.go takes.
use anp_server_go.Common.{
  All, Bool-cases, Option, String, [], arith, eq_iff, false, inl, inr, ltb, map-All, none, pair,
  some, true, ◌&&◌, ◌==◌, ◌∷◌, ◌≡◌,
}
use mathlib.Core.Path.{subst}
use anp_server_go.Attachment.Tickets.{latest_slot, newer}
use anp_server_go.Common.Dict.{Dict}
use anp_server_go.Store.{Slot}

-- Of an attachment's slots for an object, none was created later.
abbrev pub IsNewest : String → String → Dict String Slot → Slot → Type 0
IsNewest attachment_id uri slots slot =
    (slot.attachment_id ≡ attachment_id)
    × (slot.object_uri ≡ uri)
    × All
        (λ e.
          (e.1.attachment_id == attachment_id
            && e.1.object_uri == uri
            && ltb slot.created_at e.1.created_at)
          ≡ false)
        slots

-- No slot of a table that fits is newer than the one that is found; where none is found, none fits.
abbrev Newest : String → String → Dict String Slot → Option Slot → Type 0
Newest attachment_id uri slots none =
    All (λ e. (e.1.attachment_id == attachment_id && e.1.object_uri == uri) ≡ false) slots
Newest attachment_id uri slots (some slot) = IsNewest attachment_id uri slots slot

newer-IsNewest :
    (attachment_id uri id : String) (a : Slot) (slots : Dict String Slot) (o : Option Slot)
    → (a.attachment_id == attachment_id && a.object_uri == uri) ≡ true
    → Newest attachment_id uri slots o
    → Newest attachment_id uri ((id, a) ∷ slots) (newer a o)
newer-IsNewest attachment_id uri id a slots none fits h = (
  ground (arith, eq_iff a.attachment_id attachment_id),
  ground (arith, eq_iff a.object_uri uri),
  pair (ground arith) (map-All _ _ slots (λ e out. ground arith) h),
)
newer-IsNewest attachment_id uri id a slots (some b) fits h =
    elim (Bool-cases (ltb a.created_at b.created_at)) [
      | inl later ↦ rw later (h.0, h.1, pair (ground arith) h.2)
      | inr earlier ↦ rw earlier (
        ground (arith, eq_iff a.attachment_id attachment_id),
        ground (arith, eq_iff a.object_uri uri),
        pair (ground arith) (map-All _ _ slots (λ e out. ground arith) h.2),
      )
    ]

skip-Newest :
    (attachment_id uri id : String) (a : Slot) (slots : Dict String Slot) (o : Option Slot)
    → (a.attachment_id == attachment_id && a.object_uri == uri) ≡ false
    → Newest attachment_id uri slots o
    → Newest attachment_id uri ((id, a) ∷ slots) o
skip-Newest attachment_id uri id a slots none out h = (out, h)
skip-Newest attachment_id uri id a slots (some b) out h = (h.0, h.1, pair (ground arith) h.2)

latest_slot-Newest :
    (attachment_id uri : String) (slots : Dict String Slot)
    → Newest attachment_id uri slots (latest_slot attachment_id uri slots)
unfolding latest_slot
latest_slot-Newest attachment_id uri [] = tt
latest_slot-Newest attachment_id uri ((id, a) ∷ slots) =
    let rest = latest_slot-Newest attachment_id uri slots in
    elim (Bool-cases (a.attachment_id == attachment_id && a.object_uri == uri)) [
      | inl fits ↦ rw fits (newer-IsNewest attachment_id uri id a slots _ fits rest)
      | inr out ↦ rw out (skip-Newest attachment_id uri id a slots _ out rest)
    ]

pub latest_slot-IsNewest :
    (attachment_id uri : String) (slots : Dict String Slot) (slot : Slot)
    → latest_slot attachment_id uri slots ≡ some slot
    → IsNewest attachment_id uri slots slot
latest_slot-IsNewest attachment_id uri slots slot found =
    subst (Newest attachment_id uri slots) found (latest_slot-Newest attachment_id uri slots)
