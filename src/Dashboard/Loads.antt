-- ===== src/Dashboard/Loads.antt =====
-- The lists of the dashboard's pages (frontend/src/app/*/page.tsx) where their loads overlap. A list is loaded for
-- the selected application when the page is shown, when another application is selected, when a filter or a search
-- text changes, when the user asks for it (on the page of the logs), and after a handler has changed an item. Such a handler goes on, after its `await`, with the
-- application and the filter of the render that it began in. Of a handler only its request and its reload are
-- modelled here, and a list depends on the path of its request alone.
pub mod Calls
pub mod Laws
pub mod Stale
pub mod Pages
use volq_auth.Base.{ℕ, Bool, Option, none, some, List, [], ◌∷◌, ◌++◌, get_elem?, remove, String}
use volq_auth.Dashboard.Types.{Application}
use volq_auth.Dashboard.Api.{Body}

-- What a page brings: the path of its list, its filters (`none` where a filter is set to what it is), what it
-- does before its request, with the body of a reply, and in the end.
pub record Loader (P C : Type 0) : Type 0 where
  pub path : Application → P → String
  pub change : C → P → Option P
  pub begin : P → P
  pub receive : Body → P → P
  pub finish : P → P

-- A request under way: a load of the list, or a change of an item with the path of the reload that follows it.
pub data Call : Type 0 where
  loads revises : String → Call

-- The requests that are not answered yet stand in the order in which they were sent.
pub record Load (P : Type 0) : Type 0 where
  pub selected : Application
  pub page : P
  pub pending : List Call

pub data Event (C : Type 0) : Type 0 where
  switched : Application → Event C
  changed : C → Event C
  reloaded revised : Event C
  answered failed : ℕ → Event C

module _ {P C : Type 0} (l : Loader P C) (reply : String → Body) where
  -- The path of the list that the page should show.
  abbrev pub current : Load P → String
  current r = l.path r.selected r.page

  -- A load up to its `await`.
  abbrev pub send : String → Load P → Load P
  send path r = record r { page = l.begin r.page; pending = r.pending ++ loads path ∷ [] }

  -- A handler from its `await`, after a success.
  abbrev pub settle : Call → Load P → Load P
  settle (loads path) r = record r { page = l.finish (l.receive (reply path) r.page) }
  settle (revises path) r = send path r

  -- The same after a failure.
  abbrev pub refuse : Call → Load P → Load P
  refuse (loads path) r = record r { page = l.finish r.page }
  refuse (revises path) r = r

  -- `none` where no such request is under way.
  unfoldable pub step : Event C → Load P → Option (Load P)
  step (switched a) r = some (send (l.path a r.page) (record r { selected = a }))
  step (changed c) r = elim (l.change c r.page) [
    | none ↦ some r
    | some q ↦ some (send (l.path r.selected q) (record r { page = q }))
  ]
  step reloaded r = some (send (current r) r)
  step revised r = some (record r { pending = r.pending ++ revises (current r) ∷ [] })
  step (answered i) r = elim (get_elem? r.pending i) [
    | none ↦ none
    | some k ↦ some (settle k (record r { pending = remove r.pending i }))
  ]
  step (failed i) r = elim (get_elem? r.pending i) [
    | none ↦ none
    | some k ↦ some (refuse k (record r { pending = remove r.pending i }))
  ]

  unfoldable pub run : List (Event C) → Load P → Option (Load P)
  run [] r = some r
  run (e ∷ es) r = elim (step e r) [ none ↦ none | some t ↦ run es t ]

  -- The page with its first load under way.
  abbrev pub begun : Application → P → Load P
  begun a p = send (l.path a p) (record { selected = a; page = p; pending = [] })
