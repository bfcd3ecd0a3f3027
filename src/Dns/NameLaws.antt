-- ===== src/Dns/NameLaws.antt =====
-- The parser of names: that its fuel is enough, and that it reads back what the encoder of
-- `REGISTER_CNAME_RECORD` writes.
use dnet_core.Base.{
  ℕ, zero, suc, ◌+◌, ◌*◌, ◌<◌, ◌≤◌, ◌^◌, ◌≡◌, ◌≢◌, refl, sym, ap, ap₂, ◌∙◌, List, [], ◌∷◌, ◌++◌,
  append-nil, append_assoc, map, some, false, ◌==◌, arith, drop, length, length-append, drop-append,
  Bool-cases, Option-cases, inl, inr, if◌then◌else◌,
}
use dnet_core.Words.{u8}
use dnet_core.Memory.{read_bytes}
use dnet_core.Memory.Laws.{length-read_bytes, read_bytes-append}
use dnet_core.Dns.Name.{
  buf_size, push_label, read_labels, label_fuel, drop_last_dot, c_string, to_lower, read_name,
}
use dnet_core.Dns.Register.{encode_from, encode_name, label_bytes}

push_label-eq :
    (name label : List ℕ) {name' : List ℕ}
    → push_label name label ≡ some name'
    → (length name' ≡ length name + length label + 1) × (length name' ≤ buf_size)
unfolding push_label
push_label-eq name label e =
    ground (arith, length-append name (label ++ b'.' ∷ []), length-append label (b'.' ∷ []))

-- From any name within the 512 bytes of `query_name`, fuel for the rounds that still fit into it gives
-- the same outcome as any other fuel that large: the loop never runs out of it.
pub read_labels_fuel :
    (f g : ℕ) (name p : List ℕ)
    → length name ≤ buf_size
    → buf_size + 2 ≤ length name + 2 * f
    → buf_size + 2 ≤ length name + 2 * g
    → read_labels f name p ≡ read_labels g name p
unfolding read_labels
read_labels_fuel zero g name p small hf hg = absurd (omega arith)
read_labels_fuel (suc f) zero name p small hf hg = absurd (omega arith)
read_labels_fuel (suc f) (suc g) name [] small hf hg = refl
read_labels_fuel (suc f) (suc g) name (len ∷ p) small hf hg = elim (Bool-cases (len == 0)) [
  | inl done ↦ rw done
  | inr more ↦ rw more (elim (Option-cases (read_bytes len p)) [
    | inl outside ↦ rw outside
    | inr (label, r) ↦ rw r (elim (Option-cases (push_label name label)) [
      | inl full ↦ rw full
      | inr (name', q) ↦ rw q (
          let l = push_label-eq name label q in
          let n = length-read_bytes len p r in
          read_labels_fuel f g name' (drop len p) l.1 (ground arith) (ground arith))
    ])
  ])
]

-- The labels of a name on the wire, and in text with a dot behind each.
abbrev pub wire : List (List ℕ) → List ℕ
wire [] = 0 ∷ []
wire (l ∷ ls) = length l ∷ (l ++ wire ls)

abbrev pub dotted : List (List ℕ) → List ℕ
dotted [] = []
dotted (l ∷ ls) = l ++ (b'.' ∷ dotted ls)

-- Labels that are not empty.
abbrev pub AllNonempty : List (List ℕ) → Type 0
AllNonempty [] = Unit {0}
AllNonempty (l ∷ ls) = (0 < length l) × AllNonempty ls

push_label_fits :
    (name label : List ℕ)
    → length name + length label + 1 ≤ buf_size
    → push_label name label ≡ some (name ++ (label ++ b'.' ∷ []))
unfolding push_label
push_label_fits name label h = ground arith

-- One round on a label of the wire form.
read_label_round :
    (f : ℕ) (name l rest : List ℕ)
    → 0 < length l
    → length name + length l + 1 ≤ buf_size
    → read_labels (suc f) name (length l ∷ (l ++ rest))
      ≡ read_labels f (name ++ (l ++ b'.' ∷ [])) rest
unfolding read_labels
read_label_round f name l rest ne fits =
    let more : (length l == 0) ≡ false = ground arith in
    rw (more, read_bytes-append l rest)
      (rw (push_label_fits name l fits)
        (ap (read_labels f (name ++ (l ++ b'.' ∷ []))) (drop-append l rest)))

pub read_labels-wire :
    (ls : List (List ℕ)) (f : ℕ) (name rest : List ℕ)
    → AllNonempty ls
    → length ls < f
    → length name + length (dotted ls) ≤ buf_size
    → read_labels f name (wire ls ++ rest) ≡ some (name ++ dotted ls, 0 ∷ rest)
unfolding read_labels
read_labels-wire ls zero name rest ne hf fits = absurd (omega arith)
read_labels-wire [] (suc f) name rest ne hf fits =
    ap (λ t. some (t, 0 ∷ rest)) (sym (append-nil name))
read_labels-wire (l ∷ ls) (suc f) name rest ne hf fits =
    let total = length-append l (b'.' ∷ dotted ls) in
    ap (λ p. read_labels (suc f) name (length l ∷ p)) (append_assoc l (wire ls) rest)
    ∙ read_label_round f name l (wire ls ++ rest) ne.0 (omega arith)
    ∙ read_labels-wire ls f (name ++ (l ++ b'.' ∷ [])) rest ne.1 (omega arith)
        (omega (arith, length-append name (l ++ b'.' ∷ []), length-append l (b'.' ∷ [])))
    ∙ ap (λ t. some (t, 0 ∷ rest))
        (append_assoc name (l ++ b'.' ∷ []) (dotted ls)
          ∙ ap (◌++◌ name) (append_assoc l (b'.' ∷ []) (dotted ls)))

-- A text with no NUL.
abbrev pub NoNul : List ℕ → Type 0
NoNul [] = Unit {0}
NoNul (c ∷ s) = (c ≢ 0) × NoNul s

c_string-NoNul : (s : List ℕ) → NoNul s → c_string s ≡ s
unfolding c_string
c_string-NoNul [] h = refl
c_string-NoNul (c ∷ s) h = ground (arith, c_string-NoNul s h.1)

drop_last_dot-snoc : (s : List ℕ) (c : ℕ) → drop_last_dot (s ++ c ∷ []) ≡ some s
unfolding drop_last_dot
drop_last_dot-snoc [] c = refl
drop_last_dot-snoc (a ∷ []) c = refl
drop_last_dot-snoc (a ∷ b ∷ s) c = rw (drop_last_dot-snoc (b ∷ s) c)

-- The labels of a text, from the bytes since the last dot.
abbrev pub split_from : List ℕ → List ℕ → List (List ℕ)
split_from seen [] = seen ∷ []
split_from seen (c ∷ s) =
    if c == b'.' then seen ∷ split_from [] s else split_from (seen ++ c ∷ []) s

abbrev pub labels_of : List ℕ → List (List ℕ)
labels_of = split_from []

dotted-split_from : (seen s : List ℕ) → dotted (split_from seen s) ≡ (seen ++ s) ++ b'.' ∷ []
dotted-split_from seen [] = ap (λ t. t ++ b'.' ∷ []) (sym (append-nil seen))
dotted-split_from seen (c ∷ s) = elim (Bool-cases (c == b'.')) [
  | inl dot ↦
      rw (dot, dotted-split_from [] s)
        (ap (λ k. seen ++ (k ∷ (s ++ b'.' ∷ []))) (ground arith)
          ∙ sym (append_assoc seen (c ∷ s) _))
  | inr more ↦
      rw (more, dotted-split_from (seen ++ c ∷ []) s)
        (ap (λ t. t ++ b'.' ∷ []) (append_assoc seen (c ∷ []) s))
]

-- Labels that a length byte can describe.
abbrev pub AllLabels : List (List ℕ) → Type 0
AllLabels [] = Unit {0}
AllLabels (l ∷ ls) = (0 < length l) × (length l < 2 ^ 8) × AllLabels ls

pub label_bytes-eq : (l : List ℕ) → length l < 2 ^ 8 → label_bytes l ≡ length l ∷ l
label_bytes-eq l h =
    let e : u8 (length l) ≡ length l = omega arith in
    rw e (ap (λ k. length l ∷ drop k l) {y = 0} (omega arith))

encode_from-wire :
    (seen s : List ℕ)
    → AllLabels (split_from seen s)
    → encode_from seen s ≡ wire (split_from seen s)
unfolding encode_from
encode_from-wire seen [] h = ap (λ t. t ++ 0 ∷ []) (label_bytes-eq seen h.1)
encode_from-wire seen (c ∷ s) h = elim (Bool-cases (c == b'.')) [
  | inl dot ↦
      let ok = rw dot at h in
      rw dot (ap₂ ◌++◌ (label_bytes-eq seen ok.1) (encode_from-wire [] s ok.2))
  | inr more ↦ rw more (encode_from-wire (seen ++ c ∷ []) s (rw more at h))
]

AllNonempty-AllLabels : (ls : List (List ℕ)) → AllLabels ls → AllNonempty ls
AllNonempty-AllLabels [] h = tt
AllNonempty-AllLabels (l ∷ ls) h = (h.0, AllNonempty-AllLabels ls h.2)

-- A label is a byte of `dotted` at least.
pub length-labels : (ls : List (List ℕ)) → AllNonempty ls → 2 * length ls ≤ length (dotted ls)
length-labels [] h = omega arith
length-labels (l ∷ ls) h = omega (arith, length-labels ls h.1, length-append l (b'.' ∷ dotted ls))

-- What `REGISTER_CNAME_RECORD` writes for a text of up to 511 bytes, with labels of 1 to 255 bytes
-- and no NUL, is read by the parser of questions as that text in lower case, and the parser stops at
-- the zero byte behind the labels.
pub read_name-encode_name :
    (text rest : List ℕ)
    → AllLabels (labels_of text)
    → NoNul text
    → length text < buf_size
    → read_name (encode_name text ++ rest) ≡ some (map to_lower text, 0 ∷ rest)
unfolding read_name
read_name-encode_name text rest ok clean small =
    let ls = labels_of text in
    let ne = AllNonempty-AllLabels ls ok in
    let d : dotted ls ≡ text ++ b'.' ∷ [] = dotted-split_from [] text in
    let n : length (dotted ls) ≤ buf_size =
      omega (arith, ap length d, length-append text (b'.' ∷ [])) in
    let parsed =
      ap (λ p. read_labels label_fuel [] (p ++ rest)) (encode_from-wire [] text ok)
      ∙ read_labels-wire ls label_fuel [] rest ne (omega (arith, length-labels ls ne))
          (omega (arith, n))
      ∙ ap (λ t. some (t, 0 ∷ rest)) d in
    rw parsed (rw (drop_last_dot-snoc text b'.') (rw (c_string-NoNul text clean)))
