-- ===== src/Common/Decimal.antt =====
-- `format!("{n}")` and `str::parse::<usize>` on decimal numbers.
use Prim.Native.Nat.{ℕ, zero, suc, ◌+◌, ◌-◌, ◌*◌, ◌/◌, ◌%◌, ◌^◌, ◌≤◌, ◌<◌}
use mathlib.Core.Path.{◌≡◌, refl, ap}
use mathlib.Core.Bool.{◌&&◌}
use mathlib.Core.Option.{Option, none, some}
use mathlib.Core.List.{[], ◌∷◌}
use native.Mathlib.Omega.{arith}
use native.Mathlib.Nat.{pow-suc}
use mathlib.Core.Logic.{inl, inr}
use atlas_bot.Common.Tests.{Bool-cases, ltb, leb, ◌==◌, if◌then◌else◌, max_u64}
use atlas_bot.Common.Texts.{Text}

-- the digits of `n` before `out`; twenty rounds are enough for 64 bits
emit : ℕ → ℕ → Text → Text
emit zero n out = out
emit (suc fuel) n out =
    let longer = emit fuel (n / 10) ((b'0' + n % 10) ∷ out) in
    if ltb n 10 then (b'0' + n % 10) ∷ out else longer

unfoldable pub show : ℕ → Text
unfolding emit
show n = emit 20 n []

-- the digits after the value `n` of those before them; `none` is the parse error
scan : ℕ → Text → Option ℕ
scan n [] = some n
scan n (c ∷ s) =
    if leb b'0' c && leb c b'9' && leb (n * 10 + (c - b'0')) max_u64
    then scan (n * 10 + (c - b'0')) s
    else none

skip_plus : Text → Text
skip_plus [] = []
skip_plus (c ∷ []) = c ∷ []
skip_plus (c ∷ d ∷ s) = if c == b'+' then d ∷ s else c ∷ d ∷ s

scan_nonempty : Text → Option ℕ
scan_nonempty [] = none
scan_nonempty (c ∷ s) = scan 0 (c ∷ s)

-- a leading `+` is accepted where a digit follows
unfoldable pub parse_usize : Text → Option ℕ
unfolding scan skip_plus scan_nonempty
parse_usize s = scan_nonempty (skip_plus s)

scan_last : (n : ℕ) (out : Text) → n ≤ max_u64 → scan (n / 10) ((b'0' + n % 10) ∷ out) ≡ scan n out
unfolding scan
scan_last n out h = ground arith

scan_small : (n : ℕ) (out : Text) → n < 10 → scan 0 ((b'0' + n % 10) ∷ out) ≡ scan n out
unfolding scan
scan_small n out h = let e : n % 10 ≡ n = omega arith in rw e (ground arith)

scan-emit :
    (fuel n : ℕ) (out : Text) → n ≤ max_u64 → n < 10 ^ fuel → scan 0 (emit fuel n out) ≡ scan n out
unfolding emit
scan-emit zero n out h k = ap (λ m. scan m out) (omega arith)
scan-emit (suc f) n out h k = ground (
  arith,
  scan-emit f (n / 10) ((b'0' + n % 10) ∷ out),
  scan_last n out h,
  pow-suc 10 f,
  scan_small n out,
)

abbrev Starts : Text → Type 0
Starts [] = ⊥
Starts (c ∷ s) = (b'0' ≤ c) × (c ≤ b'9')

emit-Starts : (fuel n : ℕ) (out : Text) → Starts out → Starts (emit fuel n out)
unfolding emit
emit-Starts zero n out h = h
emit-Starts (suc f) n out h = elim (Bool-cases (ltb n 10)) [
  | inl e ↦ rw e (omega arith)
  | inr e ↦ rw e (emit-Starts f (n / 10) ((b'0' + n % 10) ∷ out) (omega arith))
]

show-Starts : (n : ℕ) → Starts (show n)
unfolding show
show-Starts n = elim (Bool-cases (ltb n 10)) [
  | inl e ↦ rw e (omega arith)
  | inr e ↦ rw e (emit-Starts 19 (n / 10) ((b'0' + n % 10) ∷ []) (omega arith))
]

parse_usize_of_Starts : (s : Text) → Starts s → parse_usize s ≡ scan 0 s
unfolding parse_usize
parse_usize_of_Starts [] h = absurd h
parse_usize_of_Starts (c ∷ []) h = refl
parse_usize_of_Starts (c ∷ d ∷ s) h = ground arith

-- A 64-bit number is read back from its decimal print.
pub parse_usize-show : (n : ℕ) → n ≤ max_u64 → parse_usize (show n) ≡ some n
unfolding show scan
parse_usize-show n h =
    rw (parse_usize_of_Starts (show n) (show-Starts n)) (scan-emit 20 n [] h (omega arith))

pub show-injective : (m n : ℕ) → m ≤ max_u64 → n ≤ max_u64 → show m ≡ show n → m ≡ n
show-injective m n hm hn e = cc (parse_usize-show m hm, parse_usize-show n hn, ap parse_usize e)
