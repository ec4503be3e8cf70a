-- ===== src/VarintReader/Took.antt =====
-- What a read comes to: it takes some bytes and has the number, takes them all and goes on, or fails on
-- the last piece.
use dwnx.Prelude.{
  ℕ, ◌+◌, ◌-◌, ◌≤◌, ◌<◌, ◌≡◌, refl, sym, subst, arith, List, [], ◌∷◌, ◌++◌, Bool, true, false,
  Option, none, some,
}
use dwnx.Prelude.{
  ◌==◌, if◌then◌else◌, length, All, IsByte, length-append, length-drop, Result, ok, err,
  invalid_argument,
}
use native.Mathlib.Decide.{dec_le}
use dwnx.Vec.{max_varint}
use dwnx.Conv.Wire.{extra_bytes, parse_varint}
use dwnx.Conv.Field.{parse_whole, parse_cut}
use dwnx.Conv.RoundTrip.{parse_varint-IsVarint}
use dwnx.VarintReader.{VarintReader, read}
use dwnx.VarintReader.Pieces.{held, complete, read_result}
use dwnx.VarintReader.Fragments.{read-reads, not_whole}

pub data Took (seen bytes : List ℕ) (fin : Bool) : Result (ℕ × VarintReader) → Type 0 where
  failed : fin ≡ true → Took seen bytes fin (err invalid_argument)
  goes :
      fin ≡ false
      → parse_varint (seen ++ bytes) ≡ none
      → ((held (seen ++ bytes)).left == 0) ≡ false
      → Took seen bytes fin (ok (length bytes, held (seen ++ bytes)))
  whole :
      (v n vlen : ℕ)
      → v ≤ max_varint
      → 0 < n
      → n ≤ length bytes
      → Took seen bytes fin (ok (n, complete v vlen))

-- What is left behind a number is shorter than the bytes that ended it.
rest-shorter :
    (seen bytes : List ℕ) {v : ℕ} {rest : List ℕ}
    → parse_varint seen ≡ none
    → parse_varint (seen ++ bytes) ≡ some (v, rest)
    → length rest < length bytes
unfolding parse_varint
rest-shorter [] [] e w = cc w
rest-shorter [] (b ∷ s) {v} {rest} e w = elim (dec_le (extra_bytes b) (length s)) [
  | yes fits ↦
      subst (λ r. length r < length (b ∷ s)) (second (parse_whole b s fits) w)
        (omega (arith, length-drop (extra_bytes b) s))
  | no cut ↦ cc (parse_cut b s (omega arith), w)
]
  where
    second :
        {o : Option (ℕ × List ℕ)} {x y : ℕ} {p q : List ℕ}
        → o ≡ some (x, p)
        → o ≡ some (y, q)
        → p ≡ q
    second d e = cc (d, e)
rest-shorter (a ∷ s) bytes {v} {rest} e w =
    let cut = not_whole a s e in
    elim (dec_le (extra_bytes a) (length (s ++ bytes))) [
      | yes fits ↦
          subst (λ r. length r < length bytes) (second (parse_whole a (s ++ bytes) fits) w)
            (omega (arith, length-drop (extra_bytes a) (s ++ bytes), length-append s bytes))
      | no cut ↦ cc (parse_cut a (s ++ bytes) (omega arith), w)
    ]
  where
    second :
        {o : Option (ℕ × List ℕ)} {x y : ℕ} {p q : List ℕ}
        → o ≡ some (x, p)
        → o ≡ some (y, q)
        → p ≡ q
    second d e = cc (d, e)

-- A reader that is not done has bytes left.
left-held :
    (seen : List ℕ) → 0 < length seen → parse_varint seen ≡ none → ((held seen).left == 0) ≡ false
left-held [] h e = absurd (omega arith)
left-held (b ∷ s) h e = some_left (extra_bytes b) (length s) (not_whole b s e)
  where
    some_left : (a c : ℕ) → c < a → (a - c == 0) ≡ false
    some_left a c h = ground arith

-- However an integer is cut, a read of a piece that is not empty is one of the three.
pub read-Took :
    (seen bytes : List ℕ) (fin : Bool)
    → parse_varint seen ≡ none
    → 0 < length bytes
    → All IsByte (seen ++ bytes)
    → Took seen bytes fin (read (held seen) bytes fin)
read-Took seen bytes fin e h k =
    subst (Took seen bytes fin) (sym (read-reads seen bytes fin e h k))
      (parsed (parse_varint (seen ++ bytes)) refl)
  where
    cut :
        (b : Bool)
        → fin ≡ b
        → parse_varint (seen ++ bytes) ≡ none
        → Took seen bytes fin
            (if b then err invalid_argument else ok (length bytes, held (seen ++ bytes)))
    cut true f w = failed f
    cut false f w = goes f w (left-held (seen ++ bytes) (omega (arith, length-append seen bytes)) w)

    parsed :
        (o : Option (ℕ × List ℕ))
        → parse_varint (seen ++ bytes) ≡ o
        → Took seen bytes fin (read_result seen bytes fin o)
    parsed none w = cut fin refl w
    parsed (some (v, rest)) w =
        let s = rest-shorter seen bytes e w in
        whole v (length bytes - length rest) (length seen + length bytes - length rest)
          (omega (arith, parse_varint-IsVarint (seen ++ bytes) k w)) (omega arith) (omega arith)
