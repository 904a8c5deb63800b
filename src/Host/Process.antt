-- ===== src/Host/Process.antt =====
-- What the host reads of the VM, whose crates are not part of the repository: `ProcessState` and
-- `AdviceProvider`.
use miden_base.Base.{ℕ, Option, List, Method}
use miden_base.Base.Words.{Felt, Word, Digest}
use miden_base.Kernel.Errors.{ExecutionError}

-- The stack has at least sixteen items. A word of the memory is read in a context at an address;
-- 0 is the root context.
pub record ProcessState : Type 0 where
  pub clk : ℕ
  pub ctx : ℕ
  pub get_stack_item : ℕ → Felt
  pub get_stack_word : ℕ → Word
  pub get_mem_value : ℕ → ℕ → Option Word

-- The advice map by its lookup, and a push on the advice stack, which may fail.
pub record AdviceProvider (A : Type 0) : Type 0 where
  pub get_mapped_values : A → Digest → Option (List Felt)
  pub push_stack : Felt → Method A ExecutionError (Unit {0})
