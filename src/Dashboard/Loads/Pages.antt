-- ===== src/Dashboard/Loads/Pages.antt =====
-- The pages of the licenses, the users, the variables, the files, the resellers and the logs as loaders of a list.
use volq_auth.Base.{
  ℕ, arith, refl, true, false, Option, none, some, or_default, List, [], if◌then◌else◌, String,
  ◌<>◌, ◌===◌,
}
use volq_auth.Dashboard.Types.{License, AppUser, Variable, FilePayload, Reseller, SecurityLog}
use volq_auth.Dashboard.Api.{
  Body, license_page, user_page, variable_list, file_list, reseller_list, log_list,
}
use volq_auth.Dashboard.Page.{app_path}
use volq_auth.Dashboard.Licenses
use volq_auth.Dashboard.Users
use volq_auth.Dashboard.Variables
use volq_auth.Dashboard.Files
use volq_auth.Dashboard.Resellers
use volq_auth.Dashboard.Logs
use volq_auth.Dashboard.Loads.{Loader}
use volq_auth.Dashboard.Loads.Laws.{IsLoader}

-- `setState(next)` where the state is `old`.
abbrev set_text : {P : Type 0} → String → String → P → Option P
set_text next old p = if next === old then none else some p

-- The filter and the search text of the licenses.
pub data LicenseChange : Type 0 where
  filtered searched : String → LicenseChange

abbrev change_licenses : LicenseChange → Licenses.Licenses → Option Licenses.Licenses
change_licenses (filtered s) p = set_text s p.status_filter (record p { status_filter = s })
change_licenses (searched s) p = set_text s p.search (record p { search = s })

abbrev pub license_loader : Loader Licenses.Licenses LicenseChange
license_loader = record {
  path = Licenses.list_path;
  change = change_licenses;
  begin = Licenses.set_loading true;
  receive = Licenses.receive;
  finish = Licenses.set_loading false;
}

abbrev pub listed_licenses : Licenses.Licenses → List License × ℕ
listed_licenses p = (p.licenses, p.total)

abbrev pub read_licenses : Body → Option (List License × ℕ)
read_licenses (license_page licenses total) = some (or_default licenses [], or_default total 0)
read_licenses _ = none

pub license_loader-IsLoader : IsLoader license_loader listed_licenses read_licenses
license_loader-IsLoader = record {
  path_begin = λ a p. refl;
  path_settled = λ a b p. ground arith;
  view_settled = λ b p v e. ground arith;
}

-- The search text of the users.
abbrev change_users : String → Users.Users → Option Users.Users
change_users s p = set_text s p.search (record p { search = s })

abbrev pub user_loader : Loader Users.Users String
user_loader = record {
  path = Users.list_path;
  change = change_users;
  begin = Users.set_loading true;
  receive = Users.receive;
  finish = Users.set_loading false;
}

abbrev pub read_users : Body → Option (List AppUser)
read_users (user_page users total) = some (or_default users [])
read_users _ = none

pub user_loader-IsLoader : IsLoader user_loader (λ p. p.users) read_users
user_loader-IsLoader = record {
  path_begin = λ a p. refl;
  path_settled = λ a b p. ground arith;
  view_settled = λ b p v e. ground arith;
}

-- The other pages have no filter, and all but the logs show nothing of a load that is under way.
abbrev pub variable_loader : Loader Variables.Variables ⊥
variable_loader = record {
  path = λ a p. Variables.variables_path (some a);
  change = λ c p. none;
  begin = λ p. p;
  receive = Variables.receive;
  finish = λ p. p;
}

abbrev pub read_variables : Body → Option (List Variable)
read_variables (variable_list vs) = some vs
read_variables _ = none

pub variable_loader-IsLoader : IsLoader variable_loader (λ p. p.variables) read_variables
variable_loader-IsLoader = record {
  path_begin = λ a p. refl;
  path_settled = λ a b p. refl;
  view_settled = λ b p v e. ground arith;
}

abbrev pub file_loader : Loader Files.Files ⊥
file_loader = record {
  path = λ a p. Files.files_path (some a);
  change = λ c p. none;
  begin = λ p. p;
  receive = Files.receive;
  finish = λ p. p;
}

abbrev pub read_files : Body → Option (List FilePayload)
read_files (file_list fs) = some fs
read_files _ = none

pub file_loader-IsLoader : IsLoader file_loader (λ p. p.files) read_files
file_loader-IsLoader = record {
  path_begin = λ a p. refl;
  path_settled = λ a b p. refl;
  view_settled = λ b p v e. ground arith;
}

abbrev pub reseller_loader : Loader Resellers.Resellers ⊥
reseller_loader = record {
  path = λ a p. Resellers.resellers_path a;
  change = λ c p. none;
  begin = λ p. p;
  receive = Resellers.receive;
  finish = λ p. p;
}

abbrev pub read_resellers : Body → Option (List Reseller)
read_resellers (reseller_list rs) = some rs
read_resellers _ = none

pub reseller_loader-IsLoader : IsLoader reseller_loader (λ p. p.resellers) read_resellers
reseller_loader-IsLoader = record {
  path_begin = λ a p. refl;
  path_settled = λ a b p. refl;
  view_settled = λ b p v e. ground arith;
}

abbrev pub log_loader : Loader Logs.Logs ⊥
log_loader = record {
  path = λ a p. app_path (some a) <> "/logs?limit=200";
  change = λ c p. none;
  begin = Logs.set_loading true;
  receive = Logs.receive;
  finish = Logs.set_loading false;
}

abbrev pub read_logs : Body → Option (List SecurityLog)
read_logs (log_list ls) = some ls
read_logs _ = none

pub log_loader-IsLoader : IsLoader log_loader (λ p. p.logs) read_logs
log_loader-IsLoader = record {
  path_begin = λ a p. refl;
  path_settled = λ a b p. refl;
  view_settled = λ b p v e. ground arith;
}
