-- ===== src/Gaptr/Runs.antt =====
-- Offsets 0 to 3, then 6 and 7, and then what is between them.
use dwnx.Prelude.{
  ◌+◌, ◌/◌, ◌≡◌, refl, arith, List, [], ◌∷◌, ◌||◌, ◌&&◌, leb, ltb, ◌==◌, if◌then◌else◌, ok, err,
  stream_in_use,
}
use dwnx.Gaptr.{Range, range, uint64_max, push, idtr_open}
use dwnx.Gaptr.Gaps.{IsGaps, pushed, pushed-push}
use dwnx.Gaptr.Idtr.{opened, idtr_open-opened}

abbrev two_gaps : List Range
two_gaps = range 4 6 ∷ range 8 uint64_max ∷ []

two_gaps-IsGaps : IsGaps two_gaps
two_gaps-IsGaps = ((omega arith, omega arith, (omega arith, omega arith, tt)), refl)

two_pushes : push (push [] 0 4) 6 2 ≡ two_gaps
unfolding push
two_pushes = refl

pushed-push_example :
    pushed 7 (push two_gaps 5 4) ≡ (pushed 7 two_gaps || (leb 5 7 && ltb 7 (5 + 4)))
pushed-push_example =
    pushed-push two_gaps 5 4 7 two_gaps-IsGaps (omega arith) (omega arith) (omega arith)

idtr_open-opened_example :
    (idtr' : List Range) × (idtr_open two_gaps 20
      ≡ (if opened 20 two_gaps then err stream_in_use else ok idtr'))
    × (opened 16 idtr' ≡ (opened 16 two_gaps || (16 / 4 == (20 / 4))))
    × IsGaps idtr'
idtr_open-opened_example =
    idtr_open-opened two_gaps 20 16 two_gaps-IsGaps (omega arith) (omega arith)
