-- ===== src/Dashboard/Pages.antt =====
-- The pages of what belongs to an application keep to it.
use volq_auth.Base.{◌≡◌, some, List, String}
use volq_auth.Dashboard.Types.{Application}
use volq_auth.Dashboard.Api.{Server}
use volq_auth.Dashboard.Auth.{Session}
use volq_auth.Dashboard.Visit.{Move}
use volq_auth.Dashboard.Visit.Laws.{KeepsTo, keeps_to}
use volq_auth.Dashboard.Licenses.{fetch_licenses}
use volq_auth.Dashboard.Licenses.Vault
use volq_auth.Dashboard.Licenses.Vault.{Vault, on_page}
use volq_auth.Dashboard.Licenses.Vault.Laws.{load-InApp, handle_vault-InApp}
use volq_auth.Dashboard.Users
use volq_auth.Dashboard.Users.Laws as UserLaws
use volq_auth.Dashboard.Variables
use volq_auth.Dashboard.Variables.Laws as VariableLaws
use volq_auth.Dashboard.Files
use volq_auth.Dashboard.Files.Laws as FileLaws
use volq_auth.Dashboard.Resellers
use volq_auth.Dashboard.Resellers.Laws as ResellerLaws

-- Whatever is done in the contents of the pages of the licenses, with the form that generates them, of the users, of
-- the variables, of the files and of the resellers, before a logout or another page, whichever applications are chosen
-- in the top bar meanwhile, and whatever the server answers: where an application is selected at first, after each step
-- the selected application is the one that was chosen last, and every request that the step sent is for a path below
-- that of this application.
pub pages-KeepsTo :
    (server : Server) (origin : String) (a : Application) (session : Session)
    (ls : List (Move Vault.Event)) (us : List (Move Users.Event)) (vs : List (Move Variables.Event))
    (fs : List (Move Files.Event)) (rs : List (Move Resellers.Event)) (l : Vault) (u : Users.Users)
    (v : Variables.Variables) (f : Files.Files) (r : Resellers.Resellers)
    → session.0.selected_app ≡ some a
    → KeepsTo (Vault.handle server origin) (on_page (fetch_licenses server)) a ls (l, session)
      × KeepsTo (Users.handle server) (Users.fetch_users server) a us (u, session)
      × KeepsTo (Variables.handle server) (Variables.fetch_variables server) a vs (v, session)
      × KeepsTo (Files.handle server) (Files.fetch_files server) a fs (f, session)
      × KeepsTo (Resellers.handle server) (Resellers.fetch_resellers server) a rs (r, session)
pages-KeepsTo server origin a session ls us vs fs rs l u v f r h = (
  keeps_to _ _ (λ b old. handle_vault-InApp server b old origin) (load-InApp server) ls a
      (l, session) h,
  keeps_to _ _ (UserLaws.handle-InApp server) (UserLaws.fetch_users-InApp server) us a (u, session)
      h,
  keeps_to _ _ (VariableLaws.handle-InApp server) (VariableLaws.fetch_variables-InApp server) vs a
      (v, session) h,
  keeps_to _ _ (FileLaws.handle-InApp server) (FileLaws.fetch_files-InApp server) fs a (f, session)
      h,
  keeps_to _ _ (ResellerLaws.handle-InApp server) (ResellerLaws.fetch_resellers-InApp server) rs a
      (r, session) h,
)
