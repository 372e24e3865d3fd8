-- ===== src/Dashboard/Loads/Laws.antt =====
-- Loads that are answered in their order leave a page with the list of its application and its filters.
use mathlib.Core.Path.{subst}
use volq_auth.Base.{
  ℕ, zero, suc, ◌≡◌, refl, ap, sym, ◌∙◌, Bool, true, false, not, ◌&&◌, Option, none, some, List, [],
  ◌∷◌, ◌++◌, get_elem?, String, All, Option-cases, List-cases, inl, inr, arith,
}
use volq_auth.Dashboard.Types.{Application}
use volq_auth.Dashboard.Api.{Body}
use volq_auth.Dashboard.Loads.{
  Loader, Call, loads, revises, Load, Event, switched, changed, reloaded, revised, answered, failed,
  current, send, settle, refuse, step, run, begun,
}
use volq_auth.Dashboard.Loads.Calls.{
  has_revision, is_revision, newest, newest-loads, newest-revises, IsFor, All-snoc, no_revision,
  answers_left, answers, answers_left-snoc,
}

-- What a page shows of its list, and what it reads from a body.
pub record IsLoader {P C V : Type 0} (l : Loader P C) (view : P → V) (reads : Body → Option V)
    : Type 0 where
  pub path_begin : (a : Application) (p : P) → l.path a (l.begin p) ≡ l.path a p
  pub path_settled :
      (a : Application) (b : Body) (p : P) → l.path a (l.finish (l.receive b p)) ≡ l.path a p
  pub view_settled :
      (b : Body) (p : P) (v : V) → reads b ≡ some v → view (l.finish (l.receive b p)) ≡ v

-- The oldest request is answered first, no load fails, and no other application or filter is chosen while an item
-- is being changed.
abbrev pub is_orderly : {P C : Type 0} → Event C → Load P → Bool
is_orderly (switched a) r = not (has_revision r.pending)
is_orderly (changed c) r = not (has_revision r.pending)
is_orderly reloaded r = true
is_orderly revised r = true
is_orderly (answered zero) r = true
is_orderly (answered (suc i)) r = false
is_orderly (failed zero) r = is_revision (get_elem? r.pending 0)
is_orderly (failed (suc i)) r = false

module _ {P C V : Type 0} (l : Loader P C) (view : P → V) (reads : Body → Option V)
    (lawful : IsLoader l view reads) (reply : String → Body) (listing : String → V)
    (replies : (path : String) → reads (reply path) ≡ some (listing path)) where
  -- The reloads to come are for what should be shown, and so is the newest load; without one it is shown.
  record IsCurrent (r : Load P) : Type 0 where
    revisions : All (IsFor (current l reply r)) r.pending
    shown : newest r.pending ≡ none → view r.page ≡ listing (current l reply r)
    coming : (path : String) → newest r.pending ≡ some path → path ≡ current l reply r

  send-IsCurrent :
      (path : String) (r : Load P)
      → path ≡ current l reply r
      → All (IsFor path) r.pending
      → IsCurrent (send l reply path r)
  send-IsCurrent path r e h =
      let same : path ≡ current l reply (send l reply path r) =
        e ∙ sym (lawful.path_begin r.selected r.page) in
      record {
        revisions =
            subst (λ q. All (IsFor q) (r.pending ++ loads path ∷ [])) same
              (All-snoc path r.pending (loads path) h tt);
        shown = λ none_left. absurd (ground (arith, newest-loads r.pending path));
        coming = λ q k. ground (arith, newest-loads r.pending path, same);
      }

  revise-IsCurrent :
      (r : Load P)
      → IsCurrent r
      → IsCurrent (record r { pending = r.pending ++ revises (current l reply r) ∷ [] })
  revise-IsCurrent r h = record {
    revisions =
        All-snoc (current l reply r) r.pending (revises (current l reply r)) h.revisions refl;
    shown = λ n. h.shown (sym (newest-revises r.pending (current l reply r)) ∙ n);
    coming = λ q k. h.coming q (sym (newest-revises r.pending (current l reply r)) ∙ k);
  }

  settle-IsCurrent :
      (k : Call) (ks : List Call) (a : Application) (p : P)
      → IsCurrent (record { selected = a; page = p; pending = k ∷ ks })
      → IsCurrent (settle l reply k (record { selected = a; page = p; pending = ks }))
  settle-IsCurrent (loads path) ks a p h =
      let same = lawful.path_settled a (reply path) p in
      record {
        revisions = subst (λ q. All (IsFor q) ks) (sym same) h.revisions.1;
        shown = λ n.
            lawful.view_settled (reply path) p (listing path) (replies path)
            ∙ ap listing (h.coming path (ground arith) ∙ sym same);
        coming = λ q k. h.coming q (ground arith) ∙ sym same;
      }
  settle-IsCurrent (revises path) ks a p h =
      send-IsCurrent path (record { selected = a; page = p; pending = ks }) h.revisions.0
        (subst (λ q. All (IsFor q) ks) (sym h.revisions.0) h.revisions.1)

  refuse-IsCurrent :
      (k : Call) (ks : List Call) (a : Application) (p : P)
      → is_revision (some k) ≡ true
      → IsCurrent (record { selected = a; page = p; pending = k ∷ ks })
      → IsCurrent (refuse l reply k (record { selected = a; page = p; pending = ks }))
  refuse-IsCurrent (loads path) ks a p o h = absurd (ground arith)
  refuse-IsCurrent (revises path) ks a p o h = record {
    revisions = h.revisions.1;
    shown = h.shown;
    coming = h.coming;
  }

  step-IsCurrent :
      (e : Event C) (r t : Load P)
      → is_orderly e r ≡ true
      → IsCurrent r
      → step l reply e r ≡ some t
      → IsCurrent t
  unfolding step
  step-IsCurrent (switched a) r t o h k =
      subst IsCurrent {x = send l reply (l.path a r.page) (record r { selected = a })} {y = t}
        (ground arith)
        (send-IsCurrent (l.path a r.page) (record r { selected = a }) refl
          (no_revision (l.path a r.page) r.pending (ground arith)))
  step-IsCurrent (changed c) r t o h k = elim (Option-cases (l.change c r.page)) [
    | inl same ↦ subst IsCurrent {x = r} {y = t} (ground arith) h
    | inr (q, e) ↦
        subst IsCurrent {x = send l reply (l.path r.selected q) (record r { page = q })} {y = t}
          (ground arith)
          (send-IsCurrent (l.path r.selected q) (record r { page = q }) refl
            (no_revision (l.path r.selected q) r.pending (ground arith)))
  ]
  step-IsCurrent reloaded r t o h k =
      subst IsCurrent {x = send l reply (current l reply r) r} {y = t} (ground arith)
        (send-IsCurrent (current l reply r) r refl h.revisions)
  step-IsCurrent revised r t o h k =
      subst IsCurrent {x = record r { pending = r.pending ++ revises (current l reply r) ∷ [] }}
        {y = t} (ground arith) (revise-IsCurrent r h)
  step-IsCurrent (answered zero) r t o h k = elim (List-cases r.pending) [
    | inl e ↦ absurd (ground arith)
    | inr (c, ks, e) ↦
        let oldest = subst IsCurrent {x = r} {y = record r { pending = c ∷ ks }} (ground arith) h in
        subst IsCurrent {x = settle l reply c (record r { pending = ks })} {y = t} (ground arith)
          (settle-IsCurrent c ks r.selected r.page oldest)
  ]
  step-IsCurrent (answered (suc i)) r t o h k = absurd (ground arith)
  step-IsCurrent (failed zero) r t o h k = elim (List-cases r.pending) [
    | inl e ↦ absurd (ground arith)
    | inr (c, ks, e) ↦
        let oldest = subst IsCurrent {x = r} {y = record r { pending = c ∷ ks }} (ground arith) h in
        subst IsCurrent {x = refuse l reply c (record r { pending = ks })} {y = t} (ground arith)
          (refuse-IsCurrent c ks r.selected r.page (ground arith) oldest)
  ]
  step-IsCurrent (failed (suc i)) r t o h k = absurd (ground arith)

  -- Each event of a run is orderly where it happens.
  abbrev pub orderly : List (Event C) → Load P → Bool
  orderly [] r = true
  orderly (e ∷ es) r =
      is_orderly e r && elim (step l reply e r) [ none ↦ false | some t ↦ orderly es t ]

  run-IsCurrent :
      (es : List (Event C)) (r t : Load P)
      → orderly es r ≡ true
      → IsCurrent r
      → run l reply es r ≡ some t
      → IsCurrent t
  unfolding run
  run-IsCurrent [] r t o h k = subst IsCurrent {x = r} {y = t} (ground arith) h
  run-IsCurrent (e ∷ es) r t o h k = elim (Option-cases (step l reply e r)) [
    | inl stuck ↦ absurd (ground arith)
    | inr (m, went) ↦
        run-IsCurrent es m t (ground arith) (step-IsCurrent e r m (ground arith) h went)
          (ground arith)
  ]

  begun-IsCurrent : (a : Application) (p : P) → IsCurrent (begun l reply a p)
  begun-IsCurrent a p =
      send-IsCurrent (l.path a p) (record { selected = a; page = p; pending = [] }) refl tt

  -- A state with nothing left of its run, in order, and the list that it should show.
  abbrev Answered : ℕ → Load P → Type 0
  Answered n r =
      (t : Load P) × (run l reply (answers n) r ≡ some t)
      × (orderly (answers n) r ≡ true)
      × (t.pending ≡ [])
      × (current l reply t ≡ current l reply r)

  run-answers :
      (n : ℕ) (ks : List Call) (a : Application) (p : P)
      → answers_left ks ≡ n
      → Answered n (record { selected = a; page = p; pending = ks })
  unfolding run step
  run-answers zero [] a p h =
      (record { selected = a; page = p; pending = [] }, refl, refl, refl, refl)
  run-answers zero (loads path ∷ ks) a p h = absurd (omega arith)
  run-answers zero (revises path ∷ ks) a p h = absurd (omega arith)
  run-answers (suc n) [] a p h = absurd (omega arith)
  run-answers (suc n) (loads path ∷ ks) a p h =
      let (t, went, order, none_left, same) =
        run-answers n ks a (l.finish (l.receive (reply path) p)) (omega arith) in
      (t, went, order, none_left, same ∙ lawful.path_settled a (reply path) p)
  run-answers (suc n) (revises path ∷ ks) a p h =
      let (t, went, order, none_left, same) =
        run-answers n (ks ++ loads path ∷ []) a (l.begin p)
          (omega (arith, answers_left-snoc ks path)) in
      (t, went, order, none_left, same ∙ lawful.path_begin a p)

  -- Where the requests of a page are answered in the order in which they were sent, no load fails, and no other
  -- application or filter is chosen while an item is being changed, the answers to those still under way can all
  -- come in, and then the page shows the list that the server has for the application and the filters.
  pub run-current :
      (es : List (Event C)) (a : Application) (p : P) (r : Load P)
      → orderly es (begun l reply a p) ≡ true
      → run l reply es (begun l reply a p) ≡ some r
      → (t : Load P) × (run l reply (answers (answers_left r.pending)) r ≡ some t)
        × (t.pending ≡ [])
        × (view t.page ≡ listing (current l reply r))
  run-current es a p r o k =
      let (t, went, order, none_left, same) =
        run-answers (answers_left r.pending) r.pending r.selected r.page refl in
      let h = run-IsCurrent es (begun l reply a p) r o (begun-IsCurrent a p) k in
      let now = run-IsCurrent (answers (answers_left r.pending)) r t order h went in
      (t, went, none_left, now.shown (ap newest none_left) ∙ ap listing same)
