-- ===== src/Gaptr/Gaps.antt =====
-- The gaps as a set: what a push takes away, and what a search finds.
use dwnx.Prelude.{
  ℕ, suc, ◌+◌, ◌-◌, ◌%◌, ◌^◌, ◌≤◌, ◌<◌, ◌≡◌, ◌∙◌, refl, ap, arith, List, [], ◌∷◌, Bool, true, false,
  not, ◌&&◌, ◌||◌,
}
use dwnx.Prelude.{ltb, leb, ◌==◌, ok, ◌>>=◌, Bool-cases, inl, inr}
use dwnx.Gaptr.{
  Range, range, intersect, range_len, push_gaps, gap_init, uint64_max, exclusive_search, push,
  lower_bound, is_pushed,
}
use dwnx.Gaptr.Cut.{within, has_gap, IsSorted, no_gap_below, cut_gaps-IsSorted, has_gap-cut_gaps}

before : (q k : Range) → q.begin < q.end → exclusive_search k q ≡ true → k.end ≤ q.begin
before q k h e = ground arith

reaches :
    (q k : Range)
    → k.begin < k.end
    → q.begin < q.end
    → exclusive_search k q ≡ false
    → q.begin < k.end
reaches q k l h e = ground arith

-- The gaps in front of what is pushed stay.
push_gaps-lem :
    (q : Range) (low x : ℕ) (gaps : List Range)
    → IsSorted low gaps
    → q.begin < q.end
    → (has_gap x (push_gaps q gaps) ≡ (has_gap x gaps && not (within x q)))
      × IsSorted low (push_gaps q gaps)
push_gaps-lem q low x [] s h = (refl, tt)
push_gaps-lem q low x (k ∷ gaps) s h = elim (Bool-cases (exclusive_search k q)) [
  | inl e ↦
      let rest = push_gaps-lem q k.end x gaps s.2 h in
      (rw (e, rest.0) (at-front k x (has_gap x gaps) (before q k h e)), rw e (s.0, s.1, rest.1))
  | inr e ↦ (
    rw e (has_gap-cut_gaps q low x (k ∷ gaps) s h (reaches q k s.1 h e)),
    rw e (cut_gaps-IsSorted q low (k ∷ gaps) h s),
  )
]
  where
    at-front :
        (k : Range) (x : ℕ) (g : Bool)
        → k.end ≤ q.begin
        → (within x k || (g && not (within x q))) ≡ ((within x k || g) && not (within x q))
    at-front k x g l = ground arith

-- The last offset of all is a gap for ever: no search runs off the end.
abbrev pub last : ℕ
last = uint64_max - 1

search-gap :
    (q : Range) (low : ℕ) (gaps : List Range)
    → IsSorted low gaps
    → q.end ≡ suc q.begin
    → has_gap last gaps ≡ true
    → q.begin ≤ last
    → (lower_bound q gaps >>= (λ gap. ok (range_len (intersect q gap) == 0)))
      ≡ ok (not (has_gap q.begin gaps))
search-gap q low [] s h e l = cc e
search-gap q low (k ∷ gaps) s h e l = elim (Bool-cases (exclusive_search k q)) [
  | inl t ↦
      let b = before q k (omega (arith, h)) t in
      rw (t, passed (within q.begin k) (has_gap q.begin gaps) (ground arith))
        (search-gap q k.end gaps s.2 h (ground arith) l)
  | inr f ↦ rw f (
      ap ok (
        found (has_gap q.begin gaps) (reaches q k s.1 (omega (arith, h)) f)
          (no_gap_below k.end q.begin gaps s.2)))
]
  where
    passed : (a b : Bool) → a ≡ false → (a || b) ≡ b
    passed a b e = ground arith

    found :
        (g : Bool)
        → q.begin < k.end
        → (q.begin < k.end → g ≡ false)
        → (range_len (intersect q k) == 0) ≡ not (within q.begin k || g)
    found g l n = ground arith

-- Gaps that the operations keep; none are there before the first push.
abbrev pub IsGaps : List Range → Type 0
IsGaps [] = Unit {0}
IsGaps (k ∷ gaps) = IsSorted 0 (k ∷ gaps) × (has_gap last (k ∷ gaps) ≡ true)

-- `x` has been pushed.
abbrev pub pushed : ℕ → List Range → Bool
pushed x [] = false
pushed x (k ∷ gaps) = not (has_gap x (k ∷ gaps))

IsGaps-intro : (gaps : List Range) → IsSorted 0 gaps → has_gap last gaps ≡ true → IsGaps gaps
IsGaps-intro [] s e = tt
IsGaps-intro (k ∷ gaps) s e = (s, e)

pushed-not :
    (x : ℕ) (gaps : List Range) → has_gap last gaps ≡ true → pushed x gaps ≡ not (has_gap x gaps)
pushed-not x [] e = cc e
pushed-not x (k ∷ gaps) e = refl

gap_init-lem :
    (x : ℕ) (gaps : List Range)
    → IsGaps gaps
    → x ≤ last
    → (pushed x gaps ≡ not (has_gap x (gap_init gaps)))
      × IsSorted 0 (gap_init gaps)
      × (has_gap last (gap_init gaps) ≡ true)
gap_init-lem x [] g l = (ground arith, (omega arith, omega arith, tt), refl)
gap_init-lem x (k ∷ gaps) g l = (refl, g.0, g.1)

push-lem :
    (gaps : List Range) (offset datalen x : ℕ)
    → IsGaps gaps
    → 0 < datalen
    → offset + datalen ≤ last
    → x ≤ last
    → (pushed x (push gaps offset datalen)
        ≡ (pushed x gaps || (leb offset x && ltb x (offset + datalen))))
      × IsGaps (push gaps offset datalen)
unfolding push
push-lem gaps offset datalen x g h l m =
    let i = gap_init-lem x gaps g m in
    let q = range offset (offset + datalen) in
    let here = push_gaps-lem q 0 x (gap_init gaps) i.1 (omega arith) in
    let end = push_gaps-lem q 0 last (gap_init gaps) i.1 (omega arith) in
    let kept : has_gap last (push_gaps q (gap_init gaps)) ≡ true =
      end.0 ∙ at_end q l (has_gap last (gap_init gaps)) i.2 in
    rw (small (offset + datalen) l) (
      pushed-not x (push_gaps q (gap_init gaps)) kept
          ∙ ap not here.0
          ∙ rw i.0 (de_morgan (has_gap x (gap_init gaps)) (within x q)),
      IsGaps-intro (push_gaps q (gap_init gaps)) here.1 kept,
    )
  where
    small : (n : ℕ) → n ≤ last → n % 2 ^ 64 ≡ n
    small n h = omega arith

    at_end : (q : Range) → q.end ≤ last → (g : Bool) → g ≡ true → (g && not (within last q)) ≡ true
    at_end q l g e = ground arith

    de_morgan : (a b : Bool) → not (a && not b) ≡ (not a || b)
    de_morgan a b = ground arith

-- After a push of some bytes below the last offset of all, what has been pushed is what had been, and
-- those bytes.
pub pushed-push :
    (gaps : List Range) (offset datalen x : ℕ)
    → IsGaps gaps
    → 0 < datalen
    → offset + datalen ≤ last
    → x ≤ last
    → pushed x (push gaps offset datalen)
      ≡ (pushed x gaps || (leb offset x && ltb x (offset + datalen)))
pushed-push gaps offset datalen x g h l m = (push-lem gaps offset datalen x g h l m).0

-- A push of some bytes below the last offset of all keeps the gaps in order, apart and not empty, and
-- the last offset a gap.
pub push-IsGaps :
    (gaps : List Range) (offset datalen : ℕ)
    → IsGaps gaps
    → 0 < datalen
    → offset + datalen ≤ last
    → IsGaps (push gaps offset datalen)
push-IsGaps gaps offset datalen g h l = (push-lem gaps offset datalen 0 g h l (omega arith)).1

-- The search for one offset does not run off the end.
pub is_pushed-pushed :
    (gaps : List Range) (offset : ℕ)
    → IsGaps gaps
    → offset ≤ last
    → is_pushed gaps offset 1 ≡ ok (pushed offset gaps)
unfolding is_pushed
is_pushed-pushed [] offset g l = refl
is_pushed-pushed (k ∷ gaps) offset g l =
    search-gap (range offset ((offset + 1) % 2 ^ 64)) 0 (k ∷ gaps) g.0 (omega arith) g.1 l
