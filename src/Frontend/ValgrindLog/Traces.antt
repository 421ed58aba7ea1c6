-- ===== src/Frontend/ValgrindLog/Traces.antt =====
-- The frames that the rows of a table come from.
use rcpp_deep_state.Base.{
  ◌≡◌, refl, ap, sym, ◌∙◌, subst, Bool, true, false, inl, inr, Option, none, some, List, [], ◌∷◌,
  codes, Bool-cases, Option-cases,
}
use rcpp_deep_state.Frontend.Types.{Text}
use rcpp_deep_state.Frontend.ValgrindLog.{
  Frame, Error, SrcDir, is_found, file_line, stack_trace, get_auxwhat, address_trace, stack_nodes,
  Row, stack_rows, all_but_last, last_trace, row_of, error_rows, read_valgrind_xml,
}
use rcpp_deep_state.Frontend.ValgrindLog.Laws.{IsTableOf, read_valgrind_xml-IsTableOf}
use rcpp_deep_state.Frontend.ValgrindLog.Unique.{IsMember}

-- A frame of one of the stacks that is found has the text as its file and line.
abbrev pub IsTrace : SrcDir → List (List Frame) → Text → Type 0
IsTrace src_dir stacks t =
    (s : List Frame) × IsMember s stacks
    × (f : Frame) × IsMember f s
    × (is_found src_dir f ≡ true)
    × (file_line f.file f.line ≡ some t)

stack_trace_lem :
    (src_dir : SrcDir) (s : List Frame) (t : Text)
    → stack_trace src_dir s ≡ some t
    → (f : Frame) × IsMember f s × (is_found src_dir f ≡ true) × (file_line f.file f.line ≡ some t)
unfolding stack_trace
stack_trace_lem src_dir [] t h = cc
stack_trace_lem src_dir (f ∷ s) t h =
    let step : Bool → Option Text =
      λ b. elim b [ true ↦ file_line f.file f.line | false ↦ stack_trace src_dir s ] in
    elim (Bool-cases (is_found src_dir f)) [
      | inl found ↦ (f, inl refl, found, sym (ap step found) ∙ h)
      | inr not_found ↦
          let (g, in_rest, found, named) =
            stack_trace_lem src_dir s t (sym (ap step not_found) ∙ h) in
          (g, inr in_rest, found, named)
    ]

-- What the loop over the stacks gives.
stack_rows_lem :
    (src_dir : SrcDir) (row : Text → Row) (stacks : List (List Frame)) (r : Row)
    → IsMember r (stack_rows src_dir row stacks)
    → (s : List Frame) × IsMember s stacks
      × (t : Text) × (stack_trace src_dir s ≡ some t)
      × (r ≡ row t)
unfolding stack_rows
stack_rows_lem src_dir row [] r m = absurd m
stack_rows_lem src_dir row (s ∷ stacks) r m =
    let step : Option Text → List Row = λ o. elim o [
      | none ↦ stack_rows src_dir row stacks
      | some ret ↦ row ret ∷ stack_rows src_dir row stacks
    ] in
    let later : IsMember r (stack_rows src_dir row stacks)
        → (s' : List Frame) × IsMember s' (s ∷ stacks)
          × (t : Text) × (stack_trace src_dir s' ≡ some t)
          × (r ≡ row t) =
      λ n.
        let (s', in_rest, t, trace, e) = stack_rows_lem src_dir row stacks r n in
        (s', inr in_rest, t, trace, e) in
    elim (Option-cases (stack_trace src_dir s)) [
      | inl no_trace ↦ later (subst (λ o. IsMember r (step o)) no_trace m)
      | inr (t, trace) ↦ elim (subst (λ o. IsMember r (step o)) trace m) [
        | inl e ↦ (s, inl refl, t, trace, e)
        | inr n ↦ later n
      ]
    ]

all_but_last-IsMember :
    (s : List Frame) (stacks : List (List Frame))
    → IsMember s (all_but_last stacks)
    → IsMember s stacks
unfolding all_but_last
all_but_last-IsMember s [] m = m
all_but_last-IsMember s (t ∷ []) m = inr m
all_but_last-IsMember s (t ∷ u ∷ stacks) (inl e) = inl e
all_but_last-IsMember s (t ∷ u ∷ stacks) (inr m) = inr (all_but_last-IsMember s (u ∷ stacks) m)

-- A row of the loop is about a frame of one of the stacks.
stack_rows-IsTrace :
    (src_dir : SrcDir) (error : Error) (address : Text) (trace : Option Text)
    (stacks : List (List Frame)) (r : Row)
    → ((s : List Frame) → IsMember s stacks → IsMember s (stack_nodes error))
    → IsMember r (stack_rows src_dir (row_of error address trace) stacks)
    → IsTrace src_dir (stack_nodes error) r.file_line
stack_rows-IsTrace src_dir error address trace stacks r sub m =
    let (s, in_stacks, t, traced, e) =
      stack_rows_lem src_dir (row_of error address trace) stacks r m in
    let (f, in_stack, found, named) = stack_trace_lem src_dir s t traced in
    subst (IsTrace src_dir (stack_nodes error)) (sym (ap (λ q. q.file_line) e))
      (s, sub s in_stacks, f, in_stack, found, named)

error_rows-IsTrace :
    (src_dir : SrcDir) (error : Error) (r : Row)
    → IsMember r (error_rows src_dir error)
    → IsTrace src_dir (stack_nodes error) r.file_line
unfolding error_rows
error_rows-IsTrace src_dir error r m =
    let stacks = stack_nodes error in
    let no_trace = some (codes "No Address Trace found") in
    let without : List Row =
      stack_rows src_dir (row_of error (codes "No Address found") no_trace) stacks in
    let with_trace : Text → List Row = λ address.
      stack_rows src_dir (row_of error address (last_trace src_dir stacks)) (all_but_last stacks) in
    let no_stack : Text → List Row =
      λ address. stack_rows src_dir (row_of error address no_trace) stacks in
    let at_address : Text → Bool → List Row =
      λ address b. elim b [ true ↦ with_trace address | false ↦ no_stack address ] in
    let step : Option Text → List Row =
      λ o. elim o [ none ↦ without | some address ↦ at_address address (address_trace error) ] in
    elim (Option-cases (get_auxwhat error)) [
      | inl no_address ↦
          stack_rows-IsTrace src_dir error _ _ stacks r (λ s n. n)
            (subst (λ o. IsMember r (step o)) no_address m)
      | inr (address, found) ↦
          let n : IsMember r (at_address address (address_trace error)) =
            subst (λ o. IsMember r (step o)) found m in
          elim (Bool-cases (address_trace error)) [
            | inl traced ↦
                stack_rows-IsTrace src_dir error address _ (all_but_last stacks) r
                  (λ s k. all_but_last-IsMember s stacks k)
                  (subst (λ b. IsMember r (at_address address b)) traced n)
            | inr untraced ↦
                stack_rows-IsTrace src_dir error address _ stacks r (λ s k. k)
                  (subst (λ b. IsMember r (at_address address b)) untraced n)
          ]
    ]

-- Each row of the table has the file and the line of a frame in the sources of the package, in a
-- stack of an error of the log.
pub read_valgrind_xml-IsTrace :
    (src_dir : SrcDir) (errors : List Error) (rows : List Row) (r : Row)
    → read_valgrind_xml (some src_dir) errors ≡ some rows
    → IsMember r rows
    → (error : Error) × IsMember error errors × IsTrace src_dir (stack_nodes error) r.file_line
read_valgrind_xml-IsTrace src_dir errors rows r h m =
    let (some_row, different, same) =
      subst (IsTableOf src_dir errors) h (read_valgrind_xml-IsTableOf src_dir errors) in
    let (error, in_errors, in_rows) = (same r).0 m in
    (error, in_errors, error_rows-IsTrace src_dir error r in_rows)
