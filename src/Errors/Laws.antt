-- ===== src/Errors/Laws.antt =====
-- The error reporter of src/errors.ts over any sequence of calls, and the codes that errors carry.
use typescript2cxx.Prelude.{
  ◌≡◌, refl, ap, sym, ◌∙◌, Bool, true, false, List, [], ◌∷◌, ◌++◌, map, append_assoc, append-nil,
  Text, txt, length, ltb, arith, any, All, join, ◌==◌, split_lines,
}
use typescript2cxx.Errors.{
  TranspilerError, ErrorReporter, new_reporter, error, warning, clear, has_errors, get_errors,
  get_warnings, ShowsNumbers, to_string, format_errors,
}

-- A call that changes the reporter.
pub data Call : Type 0 where
  on_error : TranspilerError → Call
  on_warning : TranspilerError → Call
  on_clear : Call

unfoldable pub call : Call → ErrorReporter → ErrorReporter
unfolding error warning clear
call (on_error e) r = error e r
call (on_warning e) r = warning e r
call on_clear r = clear r

abbrev pub calls : List Call → ErrorReporter → ErrorReporter
calls [] r = r
calls (c ∷ cs) r = calls cs (call c r)

-- The errors and the warnings that the calls report, in order.
abbrev pub reported : List Call → List TranspilerError
reported [] = []
reported (on_error e ∷ cs) = e ∷ reported cs
reported (on_warning e ∷ cs) = reported cs
reported (on_clear ∷ cs) = reported cs

abbrev pub warned : List Call → List TranspilerError
warned [] = []
warned (on_error e ∷ cs) = warned cs
warned (on_warning e ∷ cs) = e ∷ warned cs
warned (on_clear ∷ cs) = warned cs

abbrev pub is_clear : Call → Bool
is_clear on_clear = true
is_clear _ = false

abbrev pub is_error : Call → Bool
is_error (on_error e) = true
is_error _ = false

calls-append : (cs ds : List Call) (r : ErrorReporter) → calls (cs ++ ds) r ≡ calls ds (calls cs r)
calls-append [] ds r = refl
calls-append (c ∷ cs) ds r = calls-append cs ds (call c r)

errors-calls :
    (cs : List Call) (r : ErrorReporter)
    → any is_clear cs ≡ false
    → (calls cs r).errors ≡ r.errors ++ reported cs
unfolding call
errors-calls [] r h = sym (append-nil r.errors)
errors-calls (on_error e ∷ cs) r h =
    errors-calls cs (call (on_error e) r) h ∙ append_assoc r.errors (e ∷ []) (reported cs)
errors-calls (on_warning e ∷ cs) r h = errors-calls cs (call (on_warning e) r) h
errors-calls (on_clear ∷ cs) r h = ground arith

warnings-calls :
    (cs : List Call) (r : ErrorReporter)
    → any is_clear cs ≡ false
    → (calls cs r).warnings ≡ r.warnings ++ warned cs
unfolding call
warnings-calls [] r h = sym (append-nil r.warnings)
warnings-calls (on_error e ∷ cs) r h = warnings-calls cs (call (on_error e) r) h
warnings-calls (on_warning e ∷ cs) r h =
    warnings-calls cs (call (on_warning e) r) h ∙ append_assoc r.warnings (e ∷ []) (warned cs)
warnings-calls (on_clear ∷ cs) r h = ground arith

reported-any : (cs : List Call) → ltb 0 (length (reported cs)) ≡ any is_error cs
reported-any [] = refl
reported-any (on_error e ∷ cs) = ground arith
reported-any (on_warning e ∷ cs) = reported-any cs
reported-any (on_clear ∷ cs) = reported-any cs

-- After any calls, a `clear`, and calls that are no `clear`, the reporter holds the errors and the
-- warnings of the latter, in order, and says that there are errors if one of these calls was an
-- error.
pub calls-clear :
    (before after : List Call)
    → any is_clear after ≡ false
    → let r = calls (before ++ on_clear ∷ after) new_reporter in
      (get_errors r ≡ reported after)
      × ((get_warnings r ≡ warned after) × (has_errors r ≡ any is_error after))
unfolding call has_errors
calls-clear before after h =
    let r₀ = calls before new_reporter in
    let split = calls-append before (on_clear ∷ after) new_reporter in
    let e = errors-calls after (call on_clear r₀) h in
    (
      ap get_errors split ∙ e,
      (
        ap get_warnings split ∙ warnings-calls after (call on_clear r₀) h,
        rw (split, e) (reported-any after),
      ),
    )

-- A text with no line feed.
abbrev pub IsLine : Text → Type 0
IsLine s = All (λ c. (c == 10) ≡ false) s

split_lines-append :
    (s t : Text) → IsLine s → split_lines (s ++ (txt "\n" ++ t)) ≡ s ∷ split_lines t
unfolding split_lines txt
split_lines-append [] t h = refl
split_lines-append (c ∷ s) t (h, hs) = rw (h, split_lines-append s t hs) refl

split_lines-line : (s : Text) → IsLine s → split_lines s ≡ s ∷ []
unfolding split_lines
split_lines-line [] h = refl
split_lines-line (c ∷ s) (h, hs) = rw (h, split_lines-line s hs) refl

split_lines-join :
    (t : Text) (ts : List Text)
    → All IsLine (t ∷ ts)
    → split_lines (join (txt "\n") (t ∷ ts)) ≡ t ∷ ts
split_lines-join t [] (h, _) = split_lines-line t h
split_lines-join t (u ∷ ts) (h, hs) =
    split_lines-append t (join (txt "\n") (u ∷ ts)) h ∙ ap (λ l. t ∷ l) (split_lines-join u ts hs)

-- The lines of the formatted errors are the texts of the errors in the order of the reports, if
-- there is an error and no text has a line feed.
pub format_errors-lines :
    (show : ShowsNumbers) (r : ErrorReporter)
    → has_errors r ≡ true
    → All (λ e. IsLine (to_string show e)) r.errors
    → split_lines (format_errors show r) ≡ map (to_string show) r.errors
unfolding format_errors has_errors
format_errors-lines show r h k = lines_of r.errors h k
  where
    lines :
        (es : List TranspilerError)
        → All (λ e. IsLine (to_string show e)) es
        → All IsLine (map (to_string show) es)
    lines [] k = tt
    lines (e ∷ es) (k, ks) = (k, lines es ks)

    lines_of :
        (es : List TranspilerError)
        → ltb 0 (length es) ≡ true
        → All (λ e. IsLine (to_string show e)) es
        → split_lines (join (txt "\n") (map (to_string show) es)) ≡ map (to_string show) es
    lines_of [] h k = cc
    lines_of (e ∷ es) h k =
        split_lines-join (to_string show e) (map (to_string show) es) (lines (e ∷ es) k)
