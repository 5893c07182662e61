-- ===== src/Server/Metrics/Listing.antt =====
-- The hooks around the list of tools pair each request with its own start, as long as no two requests with
-- one identifier overlap.
use make_mcp.Common.{ℕ, ◌≡◌, refl, ap, ◌∙◌, false, Option, none, some, List, [], ◌∷◌, ◌++◌, All}
use make_mcp.Text.{Text, ◌=?◌}
use make_mcp.Text.Equal.{=?_refl}
use make_mcp.Dict.{lookup}
use make_mcp.Dict.Laws.{lookup-insert, lookup-delete}
use make_mcp.Config.{Duration}
use make_mcp.Server.Tools.{Tool}
use make_mcp.Server.Registry.{ToolServer}
use make_mcp.Server.Metrics.{
  ListHooks, before_list_tools, after_list_tools, list_measurements, bytes_measurements,
}

-- A call of a hook: a request's start, or its end with the cursor and the result.
pub data Hook : Type 0 where
  before : Text → ℕ → Hook
  after : Text → Text → Option (List Tool) → Hook

abbrev pub request_id : Hook → Text
request_id (before id now) = id
request_id (after id cursor result) = id

module _ (encoded : List Tool → Option ℕ) (since : ℕ → Duration) (s : ToolServer) where
  pub run_hook : Hook → ListHooks → ListHooks
  run_hook (before id now) h = before_list_tools id now h
  run_hook (after id cursor result) h = after_list_tools encoded since s id cursor result h

  pub run_hooks : List Hook → ListHooks → ListHooks
  unfolding run_hook
  run_hooks [] h = h
  run_hooks (x ∷ xs) h = run_hooks xs (run_hook x h)

  -- No hook is called for a request with that identifier.
  abbrev pub Avoids : Text → List Hook → Type 0
  Avoids id = All (λ x. (request_id x =? id) ≡ false)

  lookup-run_hook :
      (id : Text) (x : Hook) (h : ListHooks)
      → (request_id x =? id) ≡ false
      → lookup id (run_hook x h).list_starts ≡ lookup id h.list_starts
  unfolding run_hook before_list_tools after_list_tools
  lookup-run_hook id (before j now) h n = lookup-insert id j now h.list_starts ∙ rw n refl
  lookup-run_hook id (after j cursor result) h n = lookup-delete id j h.list_starts ∙ rw n refl

  lookup-run_hooks :
      (id : Text) (xs : List Hook) (h : ListHooks)
      → Avoids id xs
      → lookup id (run_hooks xs h).list_starts ≡ lookup id h.list_starts
  unfolding run_hooks
  lookup-run_hooks id [] h a = refl
  lookup-run_hooks id (x ∷ xs) h a =
      lookup-run_hooks id xs (run_hook x h) a.1 ∙ lookup-run_hook id x h a.0

  recorded-after :
      (id cursor : Text) (result : Option (List Tool)) (start : ℕ) (h : ListHooks)
      → lookup id h.list_starts ≡ some start
      → (after_list_tools encoded since s id cursor result h).recorded
        ≡ h.recorded
          ++ (list_measurements since s start result ++ bytes_measurements encoded cursor result)
  unfolding after_list_tools
  recorded-after id cursor result start h e = rw e refl

  recorded-unstarted :
      (id cursor : Text) (result : Option (List Tool)) (h : ListHooks)
      → lookup id h.list_starts ≡ none
      → (after_list_tools encoded since s id cursor result h).recorded
        ≡ h.recorded ++ bytes_measurements encoded cursor result
  unfolding after_list_tools
  recorded-unstarted id cursor result h e = rw e refl

  lookup-before :
      (id : Text) (start : ℕ) (h : ListHooks)
      → lookup id (before_list_tools id start h).list_starts ≡ some start
  unfolding before_list_tools
  lookup-before id start h = lookup-insert id id start h.list_starts ∙ rw (=?_refl id) refl

  lookup-after :
      (id cursor : Text) (result : Option (List Tool)) (h : ListHooks)
      → lookup id (after_list_tools encoded since s id cursor result h).list_starts ≡ none
  unfolding after_list_tools
  lookup-after id cursor result h = lookup-delete id id h.list_starts ∙ rw (=?_refl id) refl

  -- A request for the list of tools is counted once, with the time since its own start and the tools that it
  -- was answered with, whatever hooks are called for requests with other identifiers in between; and
  -- afterwards no request with its identifier is open.
  pub list_request-own_start :
      (id cursor : Text) (result : Option (List Tool)) (start : ℕ) (between : List Hook)
      (h : ListHooks)
      → Avoids id between
      → let reached = run_hooks between (before_list_tools id start h) in
        let done = after_list_tools encoded since s id cursor result reached in
        (done.recorded
          ≡ reached.recorded
            ++ (list_measurements since s start result ++ bytes_measurements encoded cursor result))
        × (lookup id done.list_starts ≡ none)
  list_request-own_start id cursor result start between h a =
      let reached = run_hooks between (before_list_tools id start h) in
      let open_since =
        lookup-run_hooks id between (before_list_tools id start h) a ∙ lookup-before id start h in
      (
        recorded-after id cursor result start reached open_since,
        lookup-after id cursor result reached,
      )

  -- Where two requests with one identifier overlap, as two clients may send them, the first to end is recorded
  -- with the start of the second, and the second to end is not counted as a request at all.
  pub list_requests-overlap :
      (id c d : Text) (first second : Option (List Tool)) (start later : ℕ) (h : ListHooks)
      → (run_hooks
          (before id start ∷ before id later ∷ after id c first ∷ after id d second ∷ [])
          h).recorded
        ≡ (h.recorded
            ++ (list_measurements since s later first ++ bytes_measurements encoded c first))
          ++ bytes_measurements encoded d second
  unfolding run_hooks before_list_tools
  list_requests-overlap id c d first second start later h =
      let both = before_list_tools id later (before_list_tools id start h) in
      let one = after_list_tools encoded since s id c first both in
      recorded-unstarted id d second one (lookup-after id c first both)
      ∙ ap (λ ms. ms ++ bytes_measurements encoded d second)
          (recorded-after id c first later both
            (lookup-before id later (before_list_tools id start h)))
