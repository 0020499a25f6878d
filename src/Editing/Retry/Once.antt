-- ===== src/Editing/Retry/Once.antt =====
-- What the retry policy (minicodex/agent/editing/edit_retry.py) lets through, and how often.
use mini_codex.Common.{
  ◌≡◌, ◌↔◌, ◌≢◌, ◌⊎◌, inl, inr, refl, sym, ap, ◌∙◌, Bool, true, false, not, ◌&&◌, none, some, arith,
  Text, codes, same, same_iff, strip, is_empty, Bool-cases,
}
use mini_codex.Editing.Retry.{
  Arguments, ToolResult, PendingEditRetry, refreshed, is_symbol, is_stale_failure, is_no_change,
  is_permission_denied, read_covers_pending, restricted_by, restriction_reason, observe_stale,
  observe_rest, observe_pending, result_path, observe, is_edit_tool, is_read_file,
  is_replace_symbol,
}

-- With a failure on stale context pending, a call is let through exactly if it reads the file of the
-- failed edit where it failed and that has not been done, or edits that file and it has been done.
pub restriction_reason_iff :
    (p : PendingEditRetry) (tool : Text) (arguments : Arguments)
    → is_symbol p.failure_type ≡ false
    → (restriction_reason (some p) tool arguments ≡ none) ↔ (
        (strip arguments.path ≡ p.path)
        × (((p.read_completed ≡ false)
              × (is_read_file tool ≡ true)
              × (read_covers_pending arguments p ≡ true))
            ⊎ ((p.read_completed ≡ true) × (is_edit_tool tool ≡ true))))
unfolding restriction_reason restricted_by
restriction_reason_iff p tool arguments k = (
  λ e. ground (arith, e, k, same_iff (strip arguments.path) p.path),
  λ e. ground (arith, e, k, same_iff (strip arguments.path) p.path),
)

reading_edits_not : is_edit_tool (codes "read_file") ≢ true
unfolding is_edit_tool same
reading_edits_not e = cc

edit_is_no_read : (tool : Text) → is_edit_tool tool ≡ true → is_read_file tool ≡ false
unfolding is_edit_tool is_read_file
edit_is_no_read tool e = elim (Bool-cases (is_read_file tool)) [
  | inl r ↦
      let it : tool ≡ codes "read_file" = (same_iff tool (codes "read_file")).0 r in
      absurd (reading_edits_not (sym (ap is_edit_tool it) ∙ e))
  | inr n ↦ n
]

observe_pending-edit :
    (p : PendingEditRetry) (tool path : Text) (arguments : Arguments) (result : ToolResult)
    → is_symbol p.failure_type ≡ false
    → is_edit_tool tool ≡ true
    → same path p.path ≡ true
    → (observe_pending p tool path arguments result).1 ≡ none
unfolding observe_pending
observe_pending-edit p tool path arguments result k e m =
    rw (observe_pending, k, edit_is_no_read tool e, e, m) refl

and_false : (b : Bool) → (b && false) ≡ false
and_false b = ground arith

observe-retry :
    (p : PendingEditRetry) (tool : Text) (arguments : Arguments) (result : ToolResult)
    → is_edit_tool tool ≡ true
    → p.read_completed ≡ true
    → is_symbol result.failure ≡ false
    → is_no_change result.failure ≡ false
    → is_permission_denied result.failure ≡ false
    → (observe_pending p tool (result_path arguments result) arguments result).1 ≡ none
    → (observe tool arguments result (some p)).1 ≡ none
unfolding observe observe_stale observe_rest
observe-retry p tool arguments result e read s n d rest =
    elim (Bool-cases
      (is_stale_failure result.failure && not (is_empty (result_path arguments result)))) [
        | inl stale ↦ rw (observe, e, stale, observe_stale, read) refl
        | inr fresh ↦
            rw (observe, e, fresh, s, n, d, observe_rest)
              (rw (and_false (is_replace_symbol tool)) rest)
      ]

retry_settles :
    (p : PendingEditRetry) (tool : Text) (arguments : Arguments) (result : ToolResult)
    → is_symbol p.failure_type ≡ false
    → p.read_completed ≡ true
    → restriction_reason (some p) tool arguments ≡ none
    → result_path arguments result ≡ strip arguments.path
    → is_symbol result.failure ≡ false
    → is_no_change result.failure ≡ false
    → is_permission_denied result.failure ≡ false
    → (observe tool arguments result (some p)).1 ≡ none
retry_settles p tool arguments result k read e at s n d =
    let (own, why) = (restriction_reason_iff p tool arguments k).0 e in
    let edits : is_edit_tool tool ≡ true = elim why [
      | inl u ↦ absurd (cc (u.0, read))
      | inr u ↦ u.1
    ] in
    observe-retry p tool arguments result edits read s n d (
      observe_pending-edit p tool (result_path arguments result) arguments result k edits
        ((same_iff (result_path arguments result) p.path).1 (at ∙ own)))

observe_pending-read :
    (p : PendingEditRetry) (tool path : Text) (arguments : Arguments) (result : ToolResult)
    → is_symbol p.failure_type ≡ false
    → is_read_file tool ≡ true
    → same path p.path ≡ true
    → result.success ≡ true
    → read_covers_pending arguments p ≡ true
    → (observe_pending p tool path arguments result).1 ≡ some (refreshed p result)
unfolding observe_pending
observe_pending-read p tool path arguments result k r m went c =
    rw (observe_pending, k, r, m, went, c) refl

reading_edits_no : (tool : Text) → is_read_file tool ≡ true → is_edit_tool tool ≡ false
reading_edits_no tool r = elim (Bool-cases (is_edit_tool tool)) [
  | inl e ↦ absurd (cc (edit_is_no_read tool e, r))
  | inr n ↦ n
]

reading_replaces_no : is_replace_symbol (codes "read_file") ≡ false
unfolding is_replace_symbol same
reading_replaces_no = refl

observe-read :
    (p : PendingEditRetry) (tool : Text) (arguments : Arguments) (result : ToolResult)
    → is_read_file tool ≡ true
    → is_symbol result.failure ≡ false
    → is_no_change result.failure ≡ false
    → is_permission_denied result.failure ≡ false
    → (observe tool arguments result (some p)).1
      ≡ (observe_pending p tool (result_path arguments result) arguments result).1
unfolding observe observe_rest
observe-read p tool arguments result r s n d =
    rw (observe, reading_edits_no tool r, s, n, d, observe_rest)
      (rw (and_false (is_replace_symbol tool)) refl)

-- Something of the path of the call is reported that is no failure of these kinds.
pub record IsOrdinary (arguments : Arguments) (result : ToolResult) : Type 0 where
  pub same_path : result_path arguments result ≡ strip arguments.path
  pub found : is_symbol result.failure ≡ false
  pub changes : is_no_change result.failure ≡ false
  pub permitted : is_permission_denied result.failure ≡ false

-- After a failure on stale context there is one refresh and one retry: the first call that is let
-- through, if it succeeds, leaves the retry pending with the file read, and the next call that is let
-- through then leaves nothing pending, whether it succeeds or fails. The results name the path of the
-- call, and report no unknown symbol, no edit without a change and no missing permission.
pub refresh_then_retry :
    (p : PendingEditRetry) (tool1 tool2 : Text) (arguments1 arguments2 : Arguments)
    (result1 result2 : ToolResult)
    → is_symbol p.failure_type ≡ false
    → p.read_completed ≡ false
    → IsOrdinary arguments1 result1
    → IsOrdinary arguments2 result2
    → restriction_reason (some p) tool1 arguments1 ≡ none
    → result1.success ≡ true
    → restriction_reason (some (refreshed p result1)) tool2 arguments2 ≡ none
    → ((observe tool1 arguments1 result1 (some p)).1 ≡ some (refreshed p result1))
      × ((observe tool2 arguments2 result2 (some (refreshed p result1))).1 ≡ none)
refresh_then_retry p tool1 tool2 arguments1 arguments2 result1 result2 k unread o1 o2 e went e2 =
    let (own, why) = (restriction_reason_iff p tool1 arguments1 k).0 e in
    let reads : (is_read_file tool1 ≡ true) × (read_covers_pending arguments1 p ≡ true) = elim why [
      | inl u ↦ (u.1, u.2)
      | inr u ↦ absurd (cc (u.0, unread))
    ] in
    (
      observe-read p tool1 arguments1 result1 reads.0 o1.found o1.changes o1.permitted
          ∙ observe_pending-read p tool1 (result_path arguments1 result1) arguments1 result1 k
              reads.0 ((same_iff (result_path arguments1 result1) p.path).1 (o1.same_path ∙ own))
              went reads.1,
      retry_settles (refreshed p result1) tool2 arguments2 result2 k refl e2 o2.same_path o2.found
          o2.changes o2.permitted,
    )
