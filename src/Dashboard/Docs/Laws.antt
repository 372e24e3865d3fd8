-- ===== src/Dashboard/Docs/Laws.antt =====
-- The snippets hold the credentials of the selected application.
use Prim.Native.String.{[] as empty, ◌∷◌ as cons}
use text.Mathlib.TextLemmas.{nil-append, cons-append}
use text.Mathlib.TextPositions.{starts_with-append, starts_with_of_prefix}
use text.Mathlib.TextEquality.{starts_with_iff}
use volq_auth.Base.{
  ℕ, zero, suc, ◌≡◌, refl, ap, inl, inr, Bool, true, false, ◌||◌, Option, some, List, [], ◌∷◌,
  get_elem?, String, ◌<>◌, is_empty, includes, starts_with, lines, Bool-cases, arith, append_text,
}
use volq_auth.Dashboard.Types.{Application}
use volq_auth.Dashboard.Docs.Injected.{Credentials, credentials_of}
use volq_auth.Dashboard.Docs.Native.{cpp, csharp}
use volq_auth.Dashboard.Docs.Scripts.{python, rust, go}
use volq_auth.Dashboard.Docs.Web.{react}
use volq_auth.Dashboard.Docs
use volq_auth.Dashboard.Docs.{Lang, snippet_lines, snippet}

or_true : (b : Bool) → (b || true) ≡ true
or_true true = refl
or_true false = refl

empty_prefix : (t u : String) → t <> u ≡ empty → is_empty t ≡ true
empty_prefix empty u e = refl
empty_prefix (cons c t) u e =
    let joined : cons c (t <> u) ≡ empty = rw cons-append at e in ap is_empty joined

starts-includes : (s t : String) → starts_with s t ≡ true → includes s t ≡ true
unfolding includes
starts-includes empty t h = let (u, e) = (starts_with_iff empty t).0 h in empty_prefix t u e
starts-includes (cons c s) t h = rw h refl

longer : (s t r : String) → starts_with s t ≡ true → starts_with (s <> r) t ≡ true
longer s t r h =
    let (u, e) = (starts_with_iff s t).0 h in
    starts_with_of_prefix t (s <> r) (u <> r, rw (← append_text t u r, e) refl)

-- What a text includes, a longer one includes.
includes-before : (s r t : String) → includes s t ≡ true → includes (r <> s) t ≡ true
unfolding includes
includes-before s empty t h = rw nil-append h
includes-before s (cons c r) t h = rw (cons-append, includes-before s r t h) (or_true _)

includes-after : (s r t : String) → includes s t ≡ true → includes (s <> r) t ≡ true
unfolding includes
includes-after empty r empty h = starts-includes (empty <> r) empty (starts_with-append empty r)
includes-after empty r (cons d t) h = absurd (ground arith)
includes-after (cons c s) r t h = elim (Bool-cases (starts_with (cons c s) t)) [
  | inl e ↦ starts-includes (cons c s <> r) t (longer (cons c s) t r e)
  | inr e ↦ rw (cons-append, includes-after s r t (ground arith)) (or_true _)
]

-- A text between two others.
includes-between : (before t after : String) → includes (before <> (t <> after)) t ≡ true
includes-between before t after =
    includes-before (t <> after) before t
      (starts-includes (t <> after) t (starts_with-append t after))

-- What a line includes, the lines include.
includes-lines :
    (i : ℕ) (ls : List String) (line t : String)
    → get_elem? ls i ≡ some line
    → includes line t ≡ true
    → includes (lines ls) t ≡ true
unfolding lines
includes-lines i [] line t e h = absurd (ground arith)
includes-lines zero (l ∷ []) line t e h = ground arith
includes-lines (suc i) (l ∷ []) line t e h = absurd (ground arith)
includes-lines zero (l ∷ k ∷ ls) line t e h =
    includes-after l ("\n" <> lines (k ∷ ls)) t (ground arith)
includes-lines (suc i) (l ∷ k ∷ ls) line t e h =
    includes-before ("\n" <> lines (k ∷ ls)) l t
      (includes-before (lines (k ∷ ls)) "\n" t (includes-lines i (k ∷ ls) line t e h))

-- The lines hold the three texts.
abbrev Injects : List String → Credentials → Type 0
Injects ls c =
    (includes (lines ls) c.app_id ≡ true)
    × (includes (lines ls) c.app_version ≡ true)
    × (includes (lines ls) c.master_pub_key ≡ true)

-- A line is found at a number, and holds a text between two others.
holds :
    (i : ℕ) (ls : List String) (before t after : String)
    → get_elem? ls i ≡ some (before <> (t <> after))
    → includes (lines ls) t ≡ true
holds i ls before t after e =
    includes-lines i ls (before <> (t <> after)) t e (includes-between before t after)

snippet_lines-Injects : (lang : Lang) (c : Credentials) → Injects (snippet_lines lang c) c
unfolding snippet_lines cpp csharp python rust go react
snippet_lines-Injects Docs.react c = (
  holds 94 (snippet_lines Docs.react c) "      appId=\"" c.app_id "\"" refl,
  holds 95 (snippet_lines Docs.react c) "      appVersion=\"" c.app_version "\"" refl,
  holds 96 (snippet_lines Docs.react c) "      masterPublicKey=\"" c.master_pub_key "\"" refl,
)
snippet_lines-Injects Docs.cpp c = (
  holds 9 (snippet_lines Docs.cpp c) "        \"" c.app_id "\"," refl,
  holds 10 (snippet_lines Docs.cpp c) "        \"" c.app_version "\"," refl,
  holds 11 (snippet_lines Docs.cpp c) "        \"" c.master_pub_key "\"," refl,
)
snippet_lines-Injects Docs.csharp c = (
  holds 14 (snippet_lines Docs.csharp c) "                appId: \"" c.app_id "\"," refl,
  holds 15 (snippet_lines Docs.csharp c) "                appVersion: \"" c.app_version "\"," refl,
  holds 16 (snippet_lines Docs.csharp c) "                masterPublicKey: \"" c.master_pub_key
      "\"," refl,
)
snippet_lines-Injects Docs.python c = (
  holds 7 (snippet_lines Docs.python c) "        app_id=\"" c.app_id "\"," refl,
  holds 8 (snippet_lines Docs.python c) "        app_version=\"" c.app_version "\"," refl,
  holds 9 (snippet_lines Docs.python c) "        master_public_key=\"" c.master_pub_key "\"," refl,
)
snippet_lines-Injects Docs.rust c = (
  holds 7 (snippet_lines Docs.rust c) "        \"" c.app_id "\"," refl,
  holds 8 (snippet_lines Docs.rust c) "        \"" c.app_version "\"," refl,
  holds 9 (snippet_lines Docs.rust c) "        \"" c.master_pub_key "\"," refl,
)
snippet_lines-Injects Docs.go c = (
  holds 13 (snippet_lines Docs.go c) "\t\t\"" c.app_id "\"," refl,
  holds 14 (snippet_lines Docs.go c) "\t\t\"" c.app_version "\"," refl,
  holds 15 (snippet_lines Docs.go c) "\t\t\"" c.master_pub_key "\"," refl,
)

-- Every snippet of the documentation holds the id, the version and the public key of the selected application, or the
-- words that stand for them where none is selected.
pub snippet-Injects :
    (lang : Lang) (selected : Option Application)
    → (includes (snippet lang selected) (credentials_of selected).app_id ≡ true)
      × (includes (snippet lang selected) (credentials_of selected).app_version ≡ true)
      × (includes (snippet lang selected) (credentials_of selected).master_pub_key ≡ true)
unfolding snippet
snippet-Injects lang selected = snippet_lines-Injects lang (credentials_of selected)
