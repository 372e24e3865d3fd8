-- ===== src/Dashboard/Docs.antt =====
-- frontend/src/app/docs/page.tsx: the snippets of code for the SDKs, with the credentials of the selected
-- application.
pub mod Injected
pub mod Native
pub mod Scripts
pub mod Web
pub mod Laws
use volq_auth.Base.{Option, none, some, List, [], ◌∷◌, String, ◌<>◌, text_or, lines}
use volq_auth.Dashboard.Types.{Application}
use volq_auth.Dashboard.Docs.Injected.{Credentials, credentials_of}
use volq_auth.Dashboard.Docs.Native
use volq_auth.Dashboard.Docs.Scripts
use volq_auth.Dashboard.Docs.Web

pub data Lang : Type 0 where
  react cpp csharp python rust go : Lang

-- `snippets`
unfoldable pub snippet_lines : Lang → Credentials → List String
snippet_lines react c = Web.react c
snippet_lines cpp c = Native.cpp c
snippet_lines csharp c = Native.csharp c
snippet_lines python c = Scripts.python c
snippet_lines rust c = Scripts.rust c
snippet_lines go c = Scripts.go c

-- The code that the page shows.
unfoldable pub snippet : Lang → Option Application → String
snippet lang selected = lines (snippet_lines lang (credentials_of selected))

-- The tabs, in their order.
abbrev tabs : List (Lang × String)
tabs =
    (react, "React / Next.js")
    ∷ (cpp, "C++17 (Native)")
    ∷ (csharp, "C# / .NET")
    ∷ (python, "Python")
    ∷ (rust, "Rust")
    ∷ (go, "Go")
    ∷ []

-- `setSelectedLang`, of a page that shows the React snippet at first.
pub record Docs : Type 0 where
  pub selected_lang : Lang

abbrev initial : Docs
initial = record { selected_lang = react }

unfoldable select_lang : Lang → Docs → Docs
select_lang lang p = record p { selected_lang = lang }

-- `selectedApp?.name || 'Workspace'`
abbrev workspace_text : Option Application → String
workspace_text none = "Workspace"
workspace_text (some a) = text_or (some a.name) "Workspace"
