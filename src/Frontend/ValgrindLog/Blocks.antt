-- ===== src/Frontend/ValgrindLog/Blocks.antt =====
-- The rows of an error on the memory of a block: memcheck describes the block after the stack of the
-- error, with the stack of its allocation, and before that, for a freed block, that of the freeing.
use mathlib.Core.List.{append-nil}
use rcpp_deep_state.Base.{
  inl, inr, ◌≡◌, refl, ap, sym, ◌∙◌, Option, none, some, List, [], ◌∷◌, ◌++◌, codes, Option-cases,
}
use rcpp_deep_state.Frontend.Types.{Text}
use rcpp_deep_state.Frontend.ValgrindLog.{
  Frame, Error, Child, kind, what, auxwhat, stack, SrcDir, stack_trace, Row, stack_rows, get_kind,
  get_what, get_xwhat, message, stack_nodes, all_but_last, last_trace, error_rows,
}

pub record Block : Type 0 where
  pub address : Text
  pub trace : List Frame

abbrev children : List Block → List Child
children [] = []
children (b ∷ bs) = auxwhat b.address ∷ stack b.trace ∷ children bs

abbrev pub memcheck_error : Text → Text → List Frame → List Block → Error
memcheck_error k w s blocks = kind k ∷ what w ∷ stack s ∷ children blocks

abbrev pub last_of : Block → List Block → Block
last_of b [] = b
last_of b (c ∷ bs) = last_of c bs

abbrev row_with : Text → Option Text → Text → Option Text → Text → Row
row_with k m address trace t = record {
  err_kind = some k;
  message = m;
  file_line = t;
  address_msg = address;
  address_trace = trace;
}

-- The row of a stack that goes through the sources.
unfoldable pub rows_at : SrcDir → (Text → Row) → List Frame → List Row
rows_at src_dir row s = elim (stack_trace src_dir s) [ none ↦ [] | some t ↦ row t ∷ [] ]

-- The rows of the blocks but the last one.
abbrev pub rows_before : SrcDir → (Text → Row) → Block → List Block → List Row
rows_before src_dir row b [] = []
rows_before src_dir row b (c ∷ bs) = rows_at src_dir row b.trace ++ rows_before src_dir row c bs

abbrev pub reported : SrcDir → Text → Text → List Frame → List Block → List Row
reported src_dir k w s [] =
    rows_at src_dir
      (row_with k (some w) (codes "No Address found") (some (codes "No Address Trace found"))) s
reported src_dir k w s (b ∷ bs) =
    let r : Text → Row = row_with k (some w) b.address (stack_trace src_dir (last_of b bs).trace) in
    rows_at src_dir r s ++ rows_before src_dir r b bs

stack_rows-cons :
    (src_dir : SrcDir) (row : Text → Row) (s : List Frame) (stacks : List (List Frame))
    → stack_rows src_dir row (s ∷ stacks) ≡ rows_at src_dir row s ++ stack_rows src_dir row stacks
unfolding stack_rows rows_at
stack_rows-cons src_dir row s stacks =
    let step : Option Text → List Row = λ o. elim o [
      | none ↦ stack_rows src_dir row stacks
      | some t ↦ row t ∷ stack_rows src_dir row stacks
    ] in
    let one : Option Text → List Row = λ o. elim o [ none ↦ [] | some t ↦ row t ∷ [] ] in
    elim (Option-cases (stack_trace src_dir s)) [
      | inl e ↦ ap step e ∙ sym (ap (λ o. one o ++ stack_rows src_dir row stacks) e)
      | inr (t, e) ↦ ap step e ∙ sym (ap (λ o. one o ++ stack_rows src_dir row stacks) e)
    ]

last_trace-children :
    (src_dir : SrcDir) (b : Block) (bs : List Block)
    → last_trace src_dir (b.trace ∷ stack_nodes (children bs))
      ≡ stack_trace src_dir (last_of b bs).trace
unfolding last_trace stack_nodes
last_trace-children src_dir b [] = refl
last_trace-children src_dir b (c ∷ bs) = last_trace-children src_dir c bs

stack_rows-children :
    (src_dir : SrcDir) (row : Text → Row) (b : Block) (bs : List Block)
    → stack_rows src_dir row (all_but_last (b.trace ∷ stack_nodes (children bs)))
      ≡ rows_before src_dir row b bs
unfolding stack_rows all_but_last stack_nodes
stack_rows-children src_dir row b [] = refl
stack_rows-children src_dir row b (c ∷ bs) =
    stack_rows-cons src_dir row b.trace (all_but_last (c.trace ∷ stack_nodes (children bs)))
    ∙ ap (λ rows. rows_at src_dir row b.trace ++ rows) (stack_rows-children src_dir row c bs)

get_xwhat-children : (bs : List Block) → get_xwhat (children bs) ≡ none
unfolding get_xwhat
get_xwhat-children [] = refl
get_xwhat-children (b ∷ bs) = get_xwhat-children bs

message-memcheck_error :
    (k w : Text) (s : List Frame) (blocks : List Block)
    → message (memcheck_error k w s blocks) ≡ some w
unfolding message get_xwhat get_what
message-memcheck_error k w s blocks =
    ap (λ o. elim o [ none ↦ some w | some t ↦ some t ]) (get_xwhat-children blocks)

-- For an error with a kind, a message, a stack and a list of blocks, each a description with a
-- stack, the rows are those of the error's stack and of the stacks of all blocks but the last,
-- with the description of the first block and the trace of the last one, or without an address if
-- there is no block.
pub error_rows-memcheck_error :
    (src_dir : SrcDir) (k w : Text) (s : List Frame) (blocks : List Block)
    → error_rows src_dir (memcheck_error k w s blocks) ≡ reported src_dir k w s blocks
unfolding error_rows get_kind rows_at
error_rows-memcheck_error src_dir k w s [] =
    ap
      (λ m.
        stack_rows src_dir
          (row_with k m (codes "No Address found") (some (codes "No Address Trace found")))
          (s ∷ []))
      (message-memcheck_error k w s [])
    ∙ (stack_rows-cons src_dir
          (row_with k (some w) (codes "No Address found") (some (codes "No Address Trace found"))) s
          []
        ∙ append-nil _)
error_rows-memcheck_error src_dir k w s (b ∷ bs) =
    let stacks = b.trace ∷ stack_nodes (children bs) in
    let trace = stack_trace src_dir (last_of b bs).trace in
    ap
      (λ m.
        stack_rows src_dir (row_with k m b.address (last_trace src_dir stacks))
          (s ∷ all_but_last stacks))
      (message-memcheck_error k w s (b ∷ bs))
    ∙ (ap (λ t. stack_rows src_dir (row_with k (some w) b.address t) (s ∷ all_but_last stacks))
          (last_trace-children src_dir b bs)
        ∙ (stack_rows-cons src_dir (row_with k (some w) b.address trace) s (all_but_last stacks)
            ∙ ap (λ rows. rows_at src_dir (row_with k (some w) b.address trace) s ++ rows)
                (stack_rows-children src_dir (row_with k (some w) b.address trace) b bs)))
