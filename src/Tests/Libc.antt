-- ===== src/Tests/Libc.antt =====
-- The C library at small inputs.
use pi3_distributed_llm_infe.Base.{ℕ, ◌≡◌, inr, refl, arith, true, List, [], ◌∷◌, Option, some}
use mathlib.Core.Bool.{Bool-set}
use mathlib.Core.Logic.Or
use mathlib.Core.List.{Pairwise, mem-cons, not-mem-nil}
use pi3_distributed_llm_infe.Libc.Compare.{IsSorted}
use pi3_distributed_llm_infe.Libc.Str.{strcmp}
use pi3_distributed_llm_infe.Libc.Str.Compare.{strcmp-IsComparison}
use pi3_distributed_llm_infe.Libc.Qsort.{qsort}
use pi3_distributed_llm_infe.Libc.Qsort.Sorts.{Sorts, qsort-Sorts}
use pi3_distributed_llm_infe.Libc.Bsearch.{bsearch}
use pi3_distributed_llm_infe.Libc.Bsearch.Finds.{Finds, bsearch-Finds}
use pi3_distributed_llm_infe.Libc.Kmalloc.{Heap, kmalloc}
use pi3_distributed_llm_infe.Libc.Kmalloc.Blocks.{IsValid, Outcome, kmalloc-Outcome}
use pi3_distributed_llm_infe.Libc.Kmalloc.Run.{allocate, Laid, allocate-Laid}
use pi3_distributed_llm_infe.Libc.Printk.{emit_val}
use pi3_distributed_llm_infe.Libc.Printk.Number.{value_from, emit_val_lem}

-- The texts "b", "a", "c".
abbrev texts : List (List ℕ)
texts = (98 ∷ []) ∷ (97 ∷ []) ∷ (99 ∷ []) ∷ []

abbrev in_order : List (List ℕ)
in_order = (97 ∷ []) ∷ (98 ∷ []) ∷ []

qsort_example : Sorts strcmp texts (qsort strcmp texts)
qsort_example = qsort-Sorts strcmp strcmp-IsComparison texts

in_order-IsSorted : IsSorted strcmp in_order
unfolding strcmp
in_order-IsSorted =
    Pairwise.cons
      (λ y m. Or.elim (Bool-set _ _) (mem-cons.0 m) (λ e. rw e refl) (λ n. absurd (not-mem-nil n)))
      (Pairwise.cons (λ y m. absurd (not-mem-nil m)) Pairwise.nil)

bsearch_example :
    (r : Option ℕ) × (bsearch strcmp (98 ∷ []) in_order ≡ some r)
    × Finds strcmp (98 ∷ []) in_order r
bsearch_example = bsearch-Finds strcmp-IsComparison (98 ∷ []) in_order-IsSorted

abbrev heap : Heap
heap = record { heap_start = 4096; heap_ptr = 4096; heap_end = 8192; mem = λ b. 7 }

heap-IsValid : IsValid heap
heap-IsValid = omega arith

kmalloc_example : Outcome true heap 12 (kmalloc 0 10 heap)
kmalloc_example = kmalloc-Outcome 0 10 {h = heap} heap-IsValid (omega arith)

allocate_example : Laid 4096 8192 (allocate 0 (10 ∷ 5000 ∷ 3 ∷ []) heap)
allocate_example =
    allocate-Laid 0 (10 ∷ 5000 ∷ 3 ∷ []) heap heap-IsValid
      (omega arith, (omega arith, (omega arith, tt)))

emit_val_example :
    (text : List ℕ) × (emit_val 16 48879 ≡ some text) × (value_from 16 0 text ≡ 48879)
emit_val_example = emit_val_lem 16 48879 (inr (inr refl)) (omega arith)

abbrev left : List ℕ
left = 1 ∷ 2 ∷ 3 ∷ []

abbrev right : List ℕ
right = 1 ∷ 2 ∷ 4 ∷ []
