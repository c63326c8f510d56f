-- ===== src/Prelude/Strings.antt =====
-- More of Python's `str`: `partition`, `join`, `upper`, and UTF-8. Only ASCII letters have another case
-- here.
use cs.Prelude.{
  ℕ, ◌+◌, ◌-◌, ◌*◌, ◌/◌, ◌%◌, ◌≡◌, ap, ◌≢◌, ◌≤◌, ◌<◌, ◌⊎◌, inl, inr, refl, arith, true, false, ◌&&◌,
  Option, none, some, List, [], ◌∷◌, ◌++◌, map, ltb, leb, nat_eq, nat_eq_iff, if◌then◌else◌, All,
  length,
}
use Prim.Native.String.{String}
use Prim.Native.Char.{code}
use cs.Prelude.Text.{Text}
use cs.Prelude.Exec.{Result, ok, err, value_error, bind}

-- The code points of a literal.
abbrev pub codes : String → Text
codes String.[] = []
codes (String.◌∷◌ c s) = code c ∷ codes s

-- What follows the prefix, if the text starts with it.
abbrev pub strip_prefix : Text → Text → Option Text
strip_prefix [] t = some t
strip_prefix (p ∷ ps) [] = none
strip_prefix (p ∷ ps) (c ∷ cs) = if nat_eq p c then strip_prefix ps cs else none

abbrev cut : Option Text → ℕ → Text × Text → Text × Text
cut (some rest) c later = ([], rest)
cut none c (before, after) = (c ∷ before, after)

-- `text.partition(sep)`, the parts before and after a separator that is not empty
unfoldable pub partition : Text → Text → Text × Text
partition sep [] = ([], [])
partition sep (c ∷ cs) = cut (strip_prefix sep (c ∷ cs)) c (partition sep cs)

-- `sep.join(parts)`
abbrev pub join : Text → List Text → Text
join sep [] = []
join sep (p ∷ []) = p
join sep (p ∷ q ∷ ps) = p ++ (sep ++ join sep (q ∷ ps))

abbrev pub upper_char : ℕ → ℕ
upper_char c = if leb b'a' c && leb c b'z' then c - 32 else c

-- `text.upper()`
abbrev pub upper : Text → Text
upper t = map upper_char t

-- The bytes of a code point; a surrogate has none.
abbrev pub encode_char : ℕ → Option (List ℕ)
encode_char c =
    if ltb c 128
    then some (c ∷ [])
    else if ltb c 2048
    then some ((192 + c / 64) ∷ (128 + c % 64) ∷ [])
    else if leb 55296 c && leb c 57343
    then none
    else if ltb c 65536
    then some ((224 + c / 4096) ∷ (128 + c / 64 % 64) ∷ (128 + c % 64) ∷ [])
    else some
        ((240 + c / 262144) ∷ (128 + c / 4096 % 64) ∷ (128 + c / 64 % 64) ∷ (128 + c % 64) ∷ [])

-- `text.encode('utf-8')`
unfoldable pub encode : Text → Result (List ℕ)
encode [] = ok []
encode (c ∷ cs) =
    let rest = encode cs in
    elim (encode_char c) as (λ _. Result (List ℕ)) [
      | none ↦ err value_error
      | some bs ↦ bind rest (λ tail. ok (bs ++ tail))
    ]

-- What a first byte says: how many bytes follow, its bits, and the range of the next byte.
pub record Lead : Type 0 where
  pub following : ℕ
  pub bits : ℕ
  pub low : ℕ
  pub high : ℕ

abbrev pub lead : ℕ → Option Lead
lead b =
    if ltb b 194
    then none
    else if ltb b 224
    then some (record { following = 1; bits = b - 192; low = 128; high = 191 })
    else if ltb b 240
    then some (record {
      following = 2;
      bits = b - 224;
      low = if nat_eq b 224 then 160 else 128;
      high = if nat_eq b 237 then 159 else 191;
    })
    else if ltb b 245
    then some (record {
      following = 3;
      bits = b - 240;
      low = if nat_eq b 240 then 144 else 128;
      high = if nat_eq b 244 then 143 else 191;
    })
    else none

-- The decoder is between two characters, or within one.
unfoldable pub decode_loop : Option Lead → List ℕ → Result Text
decode_loop none [] = ok []
decode_loop (some l) [] = err value_error
decode_loop none (b ∷ bs) = elim (ltb b 128) [
  | true ↦ bind (decode_loop none bs) (λ t. ok (b ∷ t))
  | false ↦ elim (lead b) [ none ↦ err value_error | some l ↦ decode_loop (some l) bs ]
]
decode_loop (some l) (b ∷ bs) = elim (leb l.low b && leb b l.high) [
  | false ↦ err value_error
  | true ↦
      let bits = l.bits * 64 + (b - 128) in
      elim (ltb 1 l.following) [
        | true ↦
            decode_loop
              (some (record { following = l.following - 1; bits = bits; low = 128; high = 191 })) bs
        | false ↦ bind (decode_loop none bs) (λ t. ok (bits ∷ t))
      ]
]

-- `data.decode('utf-8')`; the UnicodeDecodeError is a ValueError
unfoldable pub decode : List ℕ → Result Text
unfolding decode_loop
decode bs = decode_loop none bs

abbrev pub IsAscii : List ℕ → Type 0
IsAscii t = All (λ c. c < 128) t

decode_loop-ascii : (t : List ℕ) → IsAscii t → decode_loop none t ≡ ok t
unfolding decode_loop
decode_loop-ascii [] h = refl
decode_loop-ascii (c ∷ t) (hc, ht) = ground (arith, decode_loop-ascii t ht)

pub decode-ascii : (t : List ℕ) → IsAscii t → decode t ≡ ok t
unfolding decode
decode-ascii t h = decode_loop-ascii t h

strip_prefix-length :
    (p t rest : Text) → strip_prefix p t ≡ some rest → length rest + length p ≤ length t
strip_prefix-length [] t rest h = ground arith
strip_prefix-length (p ∷ ps) [] rest h = cc
strip_prefix-length (p ∷ ps) (c ∷ cs) rest h = ground (arith, strip_prefix-length ps cs rest)

-- The part before the separator is all of the text, or the part after it is shorter by the
-- separator.
abbrev pub Cut : Text → Text → Text × Text → Type 0
Cut sep t parts = (parts ≡ (t, [])) ⊎ (length parts.1 + length sep ≤ length t)

cut-Cut :
    (sep : Text) (c : ℕ) (cs : Text) (o : Option Text) (later : Text × Text)
    → strip_prefix sep (c ∷ cs) ≡ o
    → Cut sep cs later
    → Cut sep (c ∷ cs) (cut o c later)
cut-Cut sep c cs none (before, after) e (inl h) = inl (ap (λ (x : Text × Text). cut none c x) h)
cut-Cut sep c cs none (before, after) e (inr h) = inr (omega arith)
cut-Cut sep c cs (some rest) later e h = inr (strip_prefix-length sep (c ∷ cs) rest e)

pub partition_lem : (sep t : Text) → Cut sep t (partition sep t)
unfolding partition
partition_lem sep [] = inl refl
partition_lem sep (c ∷ cs) =
    cut-Cut sep c cs (strip_prefix sep (c ∷ cs)) (partition sep cs) refl (partition_lem sep cs)

abbrev pub Lacks : ℕ → Text → Type 0
Lacks c t = All (λ x. x ≢ c) t

strip_prefix_self : (p t : Text) → strip_prefix p (p ++ t) ≡ some t
strip_prefix_self [] t = refl
strip_prefix_self (c ∷ p) t = ground (arith, strip_prefix_self p t)

-- A text without the separator's first character is cut at the separator.
pub partition-append :
    (c : ℕ) (sep before after : Text)
    → Lacks c before
    → partition (c ∷ sep) (before ++ (c ∷ (sep ++ after))) ≡ (before, after)
unfolding partition
partition-append c sep [] after h = ground (arith, strip_prefix_self sep after)
partition-append c sep (x ∷ before) after (hx, h) =
    ground (arith, partition-append c sep before after h, nat_eq_iff c x)
