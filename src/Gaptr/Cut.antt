-- ===== src/Gaptr/Cut.antt =====
-- What is cut out of the gaps, from the first one that a push meets.
use dwnx.Prelude.{
  ℕ, ◌-◌, ◌≤◌, ◌<◌, ◌≡◌, refl, arith, min, max, List, [], ◌∷◌, Bool, true, false, not, ◌&&◌, ◌||◌,
}
use dwnx.Prelude.{ltb, leb, ◌==◌, lt→ltb}
use native.Mathlib.Decide.{dec_lt}
use dwnx.Gaptr.{Range, range, intersect, cut_gaps}

abbrev pub within : ℕ → Range → Bool
within x r = leb r.begin x && ltb x r.end

-- `x` is in one of the gaps.
abbrev pub has_gap : ℕ → List Range → Bool
has_gap x [] = false
has_gap x (k ∷ gaps) = within x k || has_gap x gaps

-- The gaps are not empty, do not meet and stand in order, from `low` on.
abbrev pub IsSorted : ℕ → List Range → Type 0
IsSorted low [] = Unit {0}
IsSorted low (k ∷ gaps) = (low ≤ k.begin) × (k.begin < k.end) × IsSorted k.end gaps

pub no_gap_below :
    (low x : ℕ) (gaps : List Range) → IsSorted low gaps → x < low → has_gap x gaps ≡ false
no_gap_below low x [] s h = refl
no_gap_below low x (k ∷ gaps) s h =
    ground (arith, no_gap_below k.end x gaps s.2 (omega (arith, s.0, s.1)))

IsSorted-lower :
    (low low' : ℕ) (gaps : List Range) → low' ≤ low → IsSorted low gaps → IsSorted low' gaps
IsSorted-lower low low' [] h s = tt
IsSorted-lower low low' (k ∷ gaps) h s = (omega (arith, s.0), s.1, s.2)

intersect-meeting :
    (q k : Range) (b e : ℕ)
    → max q.begin k.begin ≡ b
    → min q.end k.end ≡ e
    → b < e
    → intersect q k ≡ range b e
intersect-meeting q k b e p p' h = rw (p, p', lt→ltb b e h)

intersect-apart : (q k : Range) → min q.end k.end ≤ max q.begin k.begin → intersect q k ≡ range 0 0
intersect-apart q k h = rw (not_below (max q.begin k.begin) (min q.end k.end) h)
  where
    not_below : (a b : ℕ) → b ≤ a → ltb a b ≡ false
    not_below a b h = ground arith

cut_gaps-apart :
    (q k : Range) (gaps : List Range)
    → min q.end k.end ≤ max q.begin k.begin
    → cut_gaps q (k ∷ gaps) ≡ k ∷ gaps
cut_gaps-apart q k gaps h = rw (intersect-apart q k h)

sub_test : (a b : ℕ) → a < b → (b - a == 0) ≡ false
sub_test a b h = ground arith

no_sub_test : (a : ℕ) → (a - a == 0) ≡ true
no_sub_test a = ground arith

eq_refl : (a : ℕ) → (a == a) ≡ true
eq_refl a = ground arith

eq_lt : (a b : ℕ) → a < b → (a == b) ≡ false
eq_lt a b h = ground arith

-- What a push does to the first gap, where they meet.
cut_gaps-covered :
    (q k : Range) (gaps : List Range)
    → q.begin ≤ k.begin
    → k.end ≤ q.end
    → k.begin < k.end
    → cut_gaps q (k ∷ gaps) ≡ cut_gaps q gaps
cut_gaps-covered q k gaps h h' l = rw (
  intersect-meeting q k k.begin k.end (omega arith) (omega arith) l,
  sub_test k.begin k.end l,
  eq_refl k.begin,
  eq_refl k.end,
)

cut_gaps-left :
    (q k : Range) (gaps : List Range)
    → k.begin < q.begin
    → q.begin < k.end
    → k.end ≤ q.end
    → cut_gaps q (k ∷ gaps) ≡ range k.begin q.begin ∷ cut_gaps q gaps
cut_gaps-left q k gaps h h' l = rw (
  intersect-meeting q k q.begin k.end (omega arith) (omega arith) h',
  sub_test q.begin k.end h',
  eq_lt k.begin q.begin h,
  sub_test k.begin q.begin h,
  no_sub_test k.end,
)

cut_gaps-right :
    (q k : Range) (gaps : List Range)
    → q.begin ≤ k.begin
    → k.begin < q.end
    → q.end < k.end
    → cut_gaps q (k ∷ gaps) ≡ range q.end k.end ∷ cut_gaps q gaps
cut_gaps-right q k gaps h h' l = rw (
  intersect-meeting q k k.begin q.end (omega arith) (omega arith) h',
  sub_test k.begin q.end h',
  eq_refl k.begin,
  eq_gt k.end q.end l,
  no_sub_test k.begin,
  sub_test q.end k.end l,
)
  where
    eq_gt : (a b : ℕ) → b < a → (a == b) ≡ false
    eq_gt a b h = ground arith

cut_gaps-inside :
    (q k : Range) (gaps : List Range)
    → k.begin < q.begin
    → q.begin < q.end
    → q.end < k.end
    → cut_gaps q (k ∷ gaps) ≡ range k.begin q.begin ∷ range q.end k.end ∷ cut_gaps q gaps
cut_gaps-inside q k gaps h h' l = rw (
  intersect-meeting q k q.begin q.end (omega arith) (omega arith) h',
  sub_test q.begin q.end h',
  eq_lt k.begin q.begin h,
  sub_test k.begin q.begin h,
  sub_test q.end k.end l,
)

pub cut_gaps-IsSorted :
    (q : Range) (low : ℕ) (gaps : List Range)
    → q.begin < q.end
    → IsSorted low gaps
    → IsSorted low (cut_gaps q gaps)
cut_gaps-IsSorted q low [] h s = tt
cut_gaps-IsSorted q low (k ∷ gaps) h s = elim (dec_lt (max q.begin k.begin) (min q.end k.end)) [
  | no apart ↦ rw (cut_gaps-apart q k gaps (omega arith)) s
  | yes meets ↦ elim (dec_lt k.begin q.begin) [
    | yes l ↦ elim (dec_lt q.end k.end) [
      | yes r ↦
          rw (cut_gaps-inside q k gaps l h r)
            (s.0, l, (omega arith, r, cut_gaps-IsSorted q k.end gaps h s.2))
      | no r ↦ rw (cut_gaps-left q k gaps l (omega arith) (omega arith)) (
        s.0,
        l,
        IsSorted-lower k.end q.begin (cut_gaps q gaps) (omega arith)
            (cut_gaps-IsSorted q k.end gaps h s.2),
      )
    ]
    | no l ↦ elim (dec_lt q.end k.end) [
      | yes r ↦
          rw (cut_gaps-right q k gaps (omega arith) (omega arith) r)
            (omega (arith, s.0), r, cut_gaps-IsSorted q k.end gaps h s.2)
      | no r ↦ rw (cut_gaps-covered q k gaps (omega arith) (omega arith) s.1) (
          IsSorted-lower k.end low (cut_gaps q gaps) (omega (arith, s.0, s.1))
            (cut_gaps-IsSorted q k.end gaps h s.2))
    ]
  ]
]

-- A gap that does not end before `q`.
abbrev pub Reaches : Range → List Range → Type 0
Reaches q [] = Unit {0}
Reaches q (k ∷ gaps) = q.begin < k.end

-- What a push takes away at a point `x`; `g` tells whether it is in a gap behind the first one.
module _ (q k : Range) (x : ℕ) (g : Bool) where
  at-inside :
      k.begin < q.begin
      → q.begin < q.end
      → q.end < k.end
      → (within x (range k.begin q.begin)
          || (within x (range q.end k.end) || (g && not (within x q))))
        ≡ ((within x k || g) && not (within x q))
  at-inside l m r = ground arith

  at-left :
      k.begin < q.begin
      → q.begin < k.end
      → k.end ≤ q.end
      → (within x (range k.begin q.begin) || (g && not (within x q)))
        ≡ ((within x k || g) && not (within x q))
  at-left l m r = ground arith

  at-right :
      q.begin ≤ k.begin
      → k.begin < q.end
      → q.end < k.end
      → (within x (range q.end k.end) || (g && not (within x q)))
        ≡ ((within x k || g) && not (within x q))
  at-right l m r = ground arith

  at-covered :
      q.begin ≤ k.begin
      → k.end ≤ q.end
      → (g && not (within x q)) ≡ ((within x k || g) && not (within x q))
  at-covered l r = ground arith

  at-apart :
      q.end ≤ k.begin
      → k.begin < k.end
      → (x < k.end → g ≡ false)
      → (within x k || g) ≡ ((within x k || g) && not (within x q))
  at-apart l m r = ground arith

Reaches-rest :
    (q k : Range) (gaps : List Range) → IsSorted k.end gaps → q.begin < k.end → Reaches q gaps
Reaches-rest q k [] s h = tt
Reaches-rest q k (k' ∷ gaps) s h = omega (arith, s.0, s.1)

pub has_gap-cut_gaps :
    (q : Range) (low x : ℕ) (gaps : List Range)
    → IsSorted low gaps
    → q.begin < q.end
    → Reaches q gaps
    → has_gap x (cut_gaps q gaps) ≡ (has_gap x gaps && not (within x q))
has_gap-cut_gaps q low x [] s h b = refl
has_gap-cut_gaps q low x (k ∷ gaps) s h b =
    let g = has_gap x gaps in
    let rest = has_gap-cut_gaps q k.end x gaps s.2 h (Reaches-rest q k gaps s.2 b) in
    elim (dec_lt (max q.begin k.begin) (min q.end k.end)) [
      | no apart ↦
          rw (cut_gaps-apart q k gaps (omega arith))
            (at-apart q k x g (omega (arith, s.1)) s.1 (no_gap_below k.end x gaps s.2))
      | yes meets ↦ elim (dec_lt k.begin q.begin) [
        | yes l ↦ elim (dec_lt q.end k.end) [
          | yes r ↦ rw (cut_gaps-inside q k gaps l h r, rest) (at-inside q k x g l h r)
          | no r ↦
              rw (cut_gaps-left q k gaps l b (omega arith), rest)
                (at-left q k x g l b (omega arith))
        ]
        | no l ↦ elim (dec_lt q.end k.end) [
          | yes r ↦
              rw (cut_gaps-right q k gaps (omega arith) (omega arith) r, rest)
                (at-right q k x g (omega arith) (omega arith) r)
          | no r ↦
              rw (cut_gaps-covered q k gaps (omega arith) (omega arith) s.1, rest)
                (at-covered q k x g (omega arith) (omega arith))
        ]
      ]
    ]
