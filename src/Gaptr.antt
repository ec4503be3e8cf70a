-- ===== src/Gaptr.antt =====
-- lib/dwnx_range.c, lib/dwnx_gaptr.c and lib/dwnx_idtr.c: which offsets have been seen, kept as the gaps
-- between them, and which stream IDs have been opened. The skip list of the gaps is the list of its keys
-- in their order; an empty one has not been set up.
mod Cut
pub mod Gaps
pub mod Idtr
mod Runs
use dwnx.Prelude.{ℕ, ◌+◌, ◌-◌, ◌%◌, ◌/◌, ◌^◌, min, max, List, [], ◌∷◌, Bool, true, false, not, ◌&&◌}
use dwnx.Prelude.{ltb, leb, ◌==◌, if◌then◌else◌, Result, ok, err, fault, ◌>>=◌, stream_in_use}

pub record Range : Type 0 where
  pub begin : ℕ
  pub end : ℕ

abbrev pub range : ℕ → ℕ → Range
range begin end = record { begin = begin; end = end }

abbrev pub intersect : Range → Range → Range
intersect a b =
    let begin = max a.begin b.begin in
    let end = min a.end b.end in if ltb begin end then range begin end else range 0 0

-- `end` is not before `begin` in any range of the code.
abbrev pub range_len : Range → ℕ
range_len r = r.end - r.begin

abbrev pub range_eq : Range → Range → Bool
range_eq a b = (a.begin == b.begin) && (a.end == b.end)

-- dwnx_range_not_after
abbrev pub range_not_after : Range → Range → Bool
range_not_after a b = leb a.end b.end

-- What `b` leaves of `a` on its left and right.
abbrev pub cut : Range → Range → Range × Range
cut a b = (range a.begin b.begin, range b.end a.end)

-- dwnx_ksl_range_exclusive_search: `lhs` stands before `rhs` and does not meet it.
abbrev pub exclusive_search : Range → Range → Bool
exclusive_search lhs rhs =
    ltb lhs.begin rhs.begin && not (ltb (max lhs.begin rhs.begin) (min lhs.end rhs.end))

-- What `m` leaves of `k`, in front of `rest`.
abbrev cut_one : Range → Range → List Range → List Range
cut_one k m rest =
    let l = (cut k m).0 in
    let r = (cut k m).1 in
    if range_len l == 0
    then (if range_len r == 0 then k ∷ rest else r ∷ rest)
    else l ∷ (if range_len r == 0 then rest else r ∷ rest)

-- The gaps are gone through from the first one that `q` meets.
abbrev pub cut_gaps : Range → List Range → List Range
cut_gaps q [] = []
cut_gaps q (k ∷ gaps) =
    let m = intersect q k in
    let rest = cut_gaps q gaps in
    if range_len m == 0 then k ∷ gaps else if range_eq k m then rest else cut_one k m rest

abbrev push_gaps : Range → List Range → List Range
push_gaps q [] = []
push_gaps q (k ∷ gaps) =
    let rest = push_gaps q gaps in if exclusive_search k q then k ∷ rest else cut_gaps q (k ∷ gaps)

-- UINT64_MAX
abbrev pub uint64_max : ℕ
uint64_max = 2 ^ 64 - 1

abbrev gap_init : List Range → List Range
gap_init [] = range 0 uint64_max ∷ []
gap_init gaps = gaps

unfoldable pub push : List Range → ℕ → ℕ → List Range
push gaps offset datalen = push_gaps (range offset ((offset + datalen) % 2 ^ 64)) (gap_init gaps)

-- The first key that is not before `q`; the code asserts that there is one.
abbrev lower_bound : Range → List Range → Result Range
lower_bound q [] = fault
lower_bound q (k ∷ gaps) =
    let rest = lower_bound q gaps in if exclusive_search k q then rest else ok k

unfoldable pub is_pushed : List Range → ℕ → ℕ → Result Bool
is_pushed [] offset datalen = ok false
is_pushed (k ∷ gaps) offset datalen =
    let q = range offset ((offset + datalen) % 2 ^ 64) in
    lower_bound q (k ∷ gaps) >>= (λ gap. ok (range_len (intersect q gap) == 0))

pub first_gap_offset : List Range → ℕ
first_gap_offset [] = 0
first_gap_offset (k ∷ gaps) = k.begin

pub get_first_gap_after : List Range → ℕ → Result Range
get_first_gap_after [] offset = ok (range 0 uint64_max)
get_first_gap_after (k ∷ gaps) offset =
    lower_bound (range offset ((offset + 1) % 2 ^ 64)) (k ∷ gaps)

pub drop_first_gap : List Range → List Range
drop_first_gap [] = []
drop_first_gap (k ∷ gaps) = gaps

-- `stream_id >> 2`
abbrev pub id_from_stream_id : ℕ → ℕ
id_from_stream_id stream_id = stream_id / 4

unfoldable pub idtr_open : List Range → ℕ → Result (List Range)
idtr_open idtr stream_id =
    let q = id_from_stream_id stream_id in
    is_pushed idtr q 1 >>= (λ pushed. if pushed then err stream_in_use else ok (push idtr q 1))

abbrev pub idtr_is_open : List Range → ℕ → Result Bool
idtr_is_open idtr stream_id = is_pushed idtr (id_from_stream_id stream_id) 1
