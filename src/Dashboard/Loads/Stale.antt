-- ===== src/Dashboard/Loads/Stale.antt =====
-- Ways in which a page ends up with a list that is not the one of its application or of its filters.
use volq_auth.Base.{◌≡◌, refl, ap, ◌∙◌, arith, Option, some, [], ◌∷◌, String}
use volq_auth.Dashboard.Types.{Application}
use volq_auth.Dashboard.Api.{Body}
use volq_auth.Dashboard.Loads.{
  Loader, Load, switched, changed, revised, answered, current, step, run, begun,
}
use volq_auth.Dashboard.Loads.Laws.{IsLoader}

module _ {P C V : Type 0} (l : Loader P C) (view : P → V) (reads : Body → Option V)
    (lawful : IsLoader l view reads) (reply : String → Body) (listing : String → V)
    (replies : (path : String) → reads (reply path) ≡ some (listing path)) where
  settled : String → P → P
  settled path p = l.finish (l.receive (reply path) p)

  path-settled : (a : Application) (path : String) (p : P) → l.path a (settled path p) ≡ l.path a p
  unfolding settled
  path-settled a path p = lawful.path_settled a (reply path) p

  shown-settled :
      (path : String) (p : P) → view (l.finish (l.receive (reply path) p)) ≡ listing path
  shown-settled path p = lawful.view_settled (reply path) p (listing path) (replies path)

  -- Nothing is under way and `b` is selected, while the list is one that the server has for `a`.
  abbrev pub ShowsOther : Application → Application → P → Load P → Type 0
  ShowsOther a b p r = (r.pending ≡ []) × (r.selected ≡ b) × (view r.page ≡ listing (l.path a p))

  -- Where an application `b` and then an application `c` are selected, and the answer for `c` comes in before the
  -- one for `b`, the page ends up with `c` selected, nothing under way, and the list of `b`.
  switched_stale :
      (a b c : Application) (p : P)
      → (r : Load P) × (run l reply
            (switched b ∷ switched c ∷ answered 0 ∷ answered 1 ∷ answered 0 ∷ [])
            (begun l reply a p)
          ≡ some r)
        × ShowsOther b c p r
  unfolding run step
  switched_stale a b c p = (
    _,
    refl,
    (refl, refl, shown-settled (l.path b (l.begin p)) _ ∙ ap listing (lawful.path_begin b p)),
  )

  -- Where an item is changed and another application `b` is selected before the change is answered, the page ends
  -- up with `b` selected, nothing under way, and the list of `a` where it was: the answers come in their order.
  pub revised_stale :
      (a b : Application) (p : P)
      → (r : Load P) × (run l reply
            (answered 0 ∷ revised ∷ switched b ∷ answered 0 ∷ answered 0 ∷ answered 0 ∷ [])
            (begun l reply a p)
          ≡ some r)
        × ShowsOther a b p r
  unfolding run step
  revised_stale a b p = (
    _,
    refl,
    (
      refl,
      refl,
      shown-settled (l.path a (l.finish (l.receive (reply (l.path a p)) (l.begin p)))) _
          ∙ ap listing
              (lawful.path_settled a (reply (l.path a p)) (l.begin p) ∙ lawful.path_begin a p),
    ),
  )

  -- The same with the filters: where a filter `c` and then a filter `d` are chosen, and the answers come in so, the
  -- page ends up with nothing under way, and the list of `c` where `d` is chosen.
  pub changed_stale :
      (a : Application) (c d : C) (p q q' : P)
      → l.change c (l.begin p) ≡ some q
      → l.change d (l.begin q) ≡ some q'
      → (r : Load P) × (run l reply
            (changed c ∷ changed d ∷ answered 0 ∷ answered 1 ∷ answered 0 ∷ [])
            (begun l reply a p)
          ≡ some r)
        × (r.pending ≡ [])
        × (current l reply r ≡ l.path a q')
        × (view r.page ≡ listing (l.path a q))
  unfolding run step settled
  changed_stale a c d p q q' first second =
      let loaded : P =
        settled (l.path a q) (settled (l.path a q') (settled (l.path a p) (l.begin q'))) in
      (
        record { selected = a; page = loaded; pending = [] },
        ground arith,
        refl,
        path-settled a (l.path a q) _
            ∙ path-settled a (l.path a q') _
            ∙ path-settled a (l.path a p) _
            ∙ lawful.path_begin a q',
        shown-settled (l.path a q) _,
      )
