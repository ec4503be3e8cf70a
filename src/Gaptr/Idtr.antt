-- ===== src/Gaptr/Idtr.antt =====
-- A stream ID is opened once.
use dwnx.Prelude.{ℕ, ◌/◌, ◌<◌, ◌^◌, ◌≡◌, refl, arith, List, Bool, ◌||◌, ◌==◌, if◌then◌else◌}
use dwnx.Prelude.{ok, err, stream_in_use, leb, ltb, ◌+◌, ◌&&◌, ◌∙◌}
use dwnx.Gaptr.{Range, idtr_open, push, id_from_stream_id}
use dwnx.Gaptr.Gaps.{IsGaps, pushed, pushed-push, push-IsGaps, is_pushed-pushed}

-- The stream ID has been opened.
abbrev pub opened : ℕ → List Range → Bool
opened stream_id idtr = pushed (id_from_stream_id stream_id) idtr

pub idtr_open-push :
    (idtr : List Range) (id : ℕ)
    → IsGaps idtr
    → id < 2 ^ 62
    → idtr_open idtr id
      ≡ (if opened id idtr then err stream_in_use else ok (push idtr (id_from_stream_id id) 1))
unfolding idtr_open
idtr_open-push idtr id g h = rw (is_pushed-pushed idtr (id_from_stream_id id) g (omega arith)) refl

pub opened-push :
    (idtr : List Range) (id other : ℕ)
    → IsGaps idtr
    → id < 2 ^ 62
    → other < 2 ^ 62
    → opened other (push idtr (id_from_stream_id id) 1)
      ≡ (opened other idtr || (other / 4 == (id / 4)))
opened-push idtr id other g h k =
    pushed-push idtr (id_from_stream_id id) 1 (id_from_stream_id other) g (omega arith)
      (omega arith) (omega arith)
    ∙ rw (one (other / 4) (id / 4)) refl
  where
    one : (x q : ℕ) → (leb q x && ltb x (q + 1)) ≡ (x == q)
    one x q = ground arith

pub push_id-IsGaps :
    (idtr : List Range) (id : ℕ)
    → IsGaps idtr
    → id < 2 ^ 62
    → IsGaps (push idtr (id_from_stream_id id) 1)
push_id-IsGaps idtr id g h = push-IsGaps idtr (id_from_stream_id id) 1 g (omega arith) (omega arith)

-- Every stream ID of 62 bits is opened once: to open it again is refused, and to open it makes it, and no
-- stream ID but those of the same ordinal number, open.
pub idtr_open-opened :
    (idtr : List Range) (id other : ℕ)
    → IsGaps idtr
    → id < 2 ^ 62
    → other < 2 ^ 62
    → (idtr' : List Range) × (idtr_open idtr id
        ≡ (if opened id idtr then err stream_in_use else ok idtr'))
      × (opened other idtr' ≡ (opened other idtr || (other / 4 == (id / 4))))
      × IsGaps idtr'
idtr_open-opened idtr id other g h k = (
  push idtr (id_from_stream_id id) 1,
  idtr_open-push idtr id g h,
  opened-push idtr id other g h k,
  push_id-IsGaps idtr id g h,
)
