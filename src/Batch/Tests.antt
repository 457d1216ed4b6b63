-- ===== src/Batch/Tests.antt =====
-- translator.py: the grouping of a small book.
use cwa_e_book_translate_plu.Prelude.{
  ◌≡◌, refl, arith, Text, codes, is_space, lstrip, strip, is_blank, pos, true, List, [], ◌∷◌,
  concat,
}
use cwa_e_book_translate_plu.Batch.{
  Config, is_cjk, count_cjk, estimate_tokens, work_from, text_at, paragraph_tokens, slices, closes,
  budgeted, grouped, is_valid_selection,
}
use cwa_e_book_translate_plu.Batch.Partition.{concat-grouped}
use cwa_e_book_translate_plu.Batch.Selected.{grouped-is_valid_selection}

-- A blank paragraph stands between two others, and the last one is over the budget by itself.
abbrev book : List Text
book = codes "one two" ∷ codes "  " ∷ codes "three" ∷ codes "a far longer paragraph than those" ∷ []

abbrev config : Config
config = record {
  batch_size = pos 2;
  source_token_budget = 6;
  output_token_factor = 2000;
  output_token_floor = 64;
  context_window = 2;
}

program : Unit {0}
unfolding is_cjk count_cjk estimate_tokens work_from text_at paragraph_tokens slices closes budgeted
    grouped
program = tt

book_groups : grouped book 2 6 ≡ (0 ∷ 2 ∷ []) ∷ (3 ∷ []) ∷ []
unfolding program is_blank strip lstrip is_space
book_groups = refl

concat-grouped_example : concat (grouped book 2 6) ≡ work_from 0 book
concat-grouped_example = concat-grouped book 2 6 (ground arith)

grouped-is_valid_selection_example : is_valid_selection config book (grouped book 2 6) ≡ true
grouped-is_valid_selection_example = grouped-is_valid_selection config book 2 (ground arith) refl
