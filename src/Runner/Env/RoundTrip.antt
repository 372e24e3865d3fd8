-- ===== src/Runner/Env/RoundTrip.antt =====
-- A line that gives a key a quoted value is read back.
use Prim.Native.Char.{Char, code}
use Prim.Native.String.{[] as empty, ◌∷◌ as cons}
use text.Mathlib.TextLemmas.{nil-append, cons-append}
use volq_auth.Base.{
  ℕ, ◌≡◌, refl, ap, ◌==◌, true, false, inl, inr, some, String, ◌<>◌, is_empty, append_text,
  is_empty_append, is_space, trim, trim_of, StartsNot, EndsNot, EndsNot-append, Bool-cases, arith,
}
use volq_auth.Base.{List, [], ◌∷◌, All}
use volq_auth.Base.Storage.{Storage}
use volq_auth.Runner.Env.{
  content, split, set_missing, apply_entry, apply_lines, apply_file, is_comment, cut, is_quote,
  drop_first_quote, drop_last_quote, unquote, read_line,
}

-- No character of the text is `c`.
abbrev pub Lacks : ℕ → String → Type 0
Lacks c empty = Unit
Lacks c (cons d s) = ((code d == c) ≡ false) × Lacks c s

cut-append :
    (c : ℕ) (d : Char) (k s : String)
    → (code d == c) ≡ true
    → Lacks c k
    → cut c (k <> cons d s) ≡ some (k, s)
unfolding cut
cut-append c d empty s h l = rw (nil-append, h) refl
cut-append c d (cons e k) s h l = rw (cons-append, cut-append c d k s h l.1, l.0) refl

drop_last_quote-append :
    (d : Char) (s : String) → is_quote (code d) ≡ true → drop_last_quote (s <> cons d empty) ≡ s
unfolding drop_last_quote
drop_last_quote-append d empty h = rw (nil-append, h) refl
drop_last_quote-append d (cons c empty) h = rw (cons-append, nil-append, h) refl
drop_last_quote-append d (cons c (cons e s)) h =
    rw (cons-append, cons-append)
      (ap (cons c) (rw cons-append at (drop_last_quote-append d (cons e s) h)))

-- A name that a line may give a value to.
pub record IsKey (k : String) : Type 0 where
  pub filled : is_empty k ≡ false
  pub starts : StartsNot k
  pub ends : EndsNot is_space k
  pub no_sign : Lacks b'=' k
  pub no_comment : is_comment k ≡ false

abbrev pub quoted : String → String
quoted v = cons "\"" (v <> cons "\"" empty)

-- The line `key="value"`.
abbrev pub print_line : String → String → String
print_line k v = k <> cons "=" (quoted v)

StartsNot-append : (k s : String) → is_empty k ≡ false → StartsNot k → StartsNot (k <> s)
StartsNot-append empty s e h = absurd (ground arith)
StartsNot-append (cons c k) s e h = rw cons-append h

no_comment-append :
    (k s : String) → is_empty k ≡ false → is_comment k ≡ false → is_comment (k <> s) ≡ false
no_comment-append empty s e h = absurd (ground arith)
no_comment-append (cons c k) s e h = rw cons-append h

trim-quoted : (v : String) → trim (quoted v) ≡ quoted v
unfolding is_space
trim-quoted v =
    trim_of (quoted v) refl
      (rw cons-append at (EndsNot-append is_space (cons "\"" v) (cons "\"" empty) refl refl))

unquote-quoted : (v : String) → unquote (trim (quoted v)) ≡ v
unfolding unquote drop_first_quote
unquote-quoted v = rw (trim-quoted v) (drop_last_quote-append "\"" v refl)

trim-print_line : (k v : String) → IsKey k → trim (print_line k v) ≡ print_line k v
unfolding is_space
trim-print_line k v h =
    trim_of (print_line k v) (StartsNot-append k (cons "=" (quoted v)) h.filled h.starts) (
      rw (append_text k (cons "=" (cons "\"" v)) (cons "\"" empty), cons-append, cons-append) at
        (EndsNot-append is_space (k <> cons "=" (cons "\"" v)) (cons "\"" empty) refl refl))

-- A line that gives a key a value in double quotes is read as that key and that value, where the key is not empty, has
-- no white space at its ends and no equals sign, and starts no comment.
read_line-print_line : (k v : String) → IsKey k → read_line (print_line k v) ≡ some (k, v)
unfolding read_line
read_line-print_line k v h =
    rw
      (
        trim-print_line k v h,
        is_empty_append k (cons "=" (quoted v)) h.filled,
        no_comment-append k (cons "=" (quoted v)) h.filled h.no_comment,
        cut-append b'=' "=" k (quoted v) refl h.no_sign,
        trim_of k h.starts h.ends,
        unquote-quoted v,
      )
      refl

split-cons :
    (c : ℕ) (s : String) → (line : String) × (lines : List String) × (split c s ≡ line ∷ lines)
unfolding split
split-cons c empty = (empty, [], refl)
split-cons c (cons d s) =
    let (line, lines, e) = split-cons c s in
    elim (Bool-cases (code d == c)) [
      | inl t ↦ (empty, line ∷ lines, rw (e, t) refl)
      | inr f ↦ (cons d line, lines, rw (e, f) refl)
    ]

split-append :
    (c : ℕ) (d : Char) (k s : String)
    → (code d == c) ≡ true
    → Lacks c k
    → split c (k <> cons d s) ≡ k ∷ split c s
unfolding split
split-append c d empty s h l = let (line, lines, e) = split-cons c s in rw (nil-append, e, h) refl
split-append c d (cons e k) s h l = rw (cons-append, split, split-append c d k s h l.1, l.0) refl

Lacks-append : (c : ℕ) (k s : String) → Lacks c k → Lacks c s → Lacks c (k <> s)
Lacks-append c empty s h l = rw nil-append l
Lacks-append c (cons d k) s h l = rw cons-append (h.0, Lacks-append c k s h.1 l)

-- A key and a value that stand on one line.
abbrev pub IsEntry : String × String → Type 0
IsEntry (k, v) = IsKey k × Lacks b'\n' k × Lacks b'\n' v

print_line-Lacks : (k v : String) → IsEntry (k, v) → Lacks b'\n' (print_line k v)
print_line-Lacks k v h =
    Lacks-append b'\n' k (cons "=" (quoted v)) h.1
      (refl, (refl, Lacks-append b'\n' v (cons "\"" empty) h.2 (refl, tt)))

-- The text of a file that gives each key its value.
abbrev pub print_file : List (String × String) → String
print_file [] = empty
print_file ((k, v) ∷ entries) = print_line k v <> cons "\n" (print_file entries)

abbrev pub set_all : List (String × String) → Storage → Storage
set_all [] env = env
set_all ((k, v) ∷ entries) env = set_all entries (set_missing k v env)

-- A file with a line `key="value"` for each of some keys and values sets, in their order, the keys that are missing or
-- empty, and nothing else; the keys are as above, and no key or value has a line end.
pub apply_file-print_file :
    (entries : List (String × String)) (env : Storage)
    → All IsEntry entries
    → apply_file (content (print_file entries)) env ≡ set_all entries env
unfolding apply_file apply_lines apply_entry read_line split trim
apply_file-print_file [] env h = refl
apply_file-print_file ((k, v) ∷ entries) env h =
    rw
      (
        split-append b'\n' "\n" (print_line k v) (print_file entries) refl
            (print_line-Lacks k v h.0),
        apply_lines,
        read_line-print_line k v h.0.0,
      )
      (apply_file-print_file entries (set_missing k v env) h.1)
