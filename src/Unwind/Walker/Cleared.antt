-- ===== src/Unwind/Walker/Cleared.antt =====
-- What STACK WIN's clearing of registers does to the walker of a real frame.
use rust_minidump.Base.{
  ℕ, ◌≡◌, refl, ◌∙◌, Bool, false, Option, List, [], ◌∷◌, Bytes, text, bytes_eq, All,
}
use rust_minidump.SymFile.Win.Walks.{output_regs, clear_all, clear_stack_win_caller_registers}
use rust_minidump.Unwind.Contexts.{
  X86Register, ContextX86, x86_context, eip, esp, ebp, ebx, esi, edi, eax, ecx, edx, eflags,
  name_of,
}
use rust_minidump.Unwind.Walker.{CfiStackWalker, clear_caller_register, x86_walker}

-- A name with `$` names no register.
dollar_names_none : (reg : Bytes) (r : X86Register) → bytes_eq (36 ∷ reg) (name_of r) ≡ false
dollar_names_none reg eip = refl
dollar_names_none reg esp = refl
dollar_names_none reg ebp = refl
dollar_names_none reg ebx = refl
dollar_names_none reg esi = refl
dollar_names_none reg edi = refl
dollar_names_none reg eax = refl
dollar_names_none reg ecx = refl
dollar_names_none reg edx = refl
dollar_names_none reg eflags = refl

module _ (get_memory_at_address : ℕ → Option ℕ) (r : X86Register) where
  abbrev valid_in : CfiStackWalker ContextX86 → Bool
  valid_in s = s.caller_validity (name_of r)

  clear_all_idle :
      (regs : List Bytes) (s : CfiStackWalker ContextX86)
      → All (λ reg. bytes_eq reg (name_of r) ≡ false) regs
      → valid_in (clear_all (x86_walker get_memory_at_address) regs s) ≡ valid_in s
  unfolding clear_all x86_walker clear_caller_register
  clear_all_idle [] s h = refl
  clear_all_idle (reg ∷ regs) s h =
      clear_all_idle regs (clear_caller_register x86_context reg s) h.1 ∙ rw h.0 refl

  -- Clearing the registers before a STACK WIN walk leaves every register of the caller as valid as
  -- it was: the names that are cleared begin with `$`, and no valid name does.
  pub clear_stack_win_caller_registers_idle :
      (s : CfiStackWalker ContextX86)
      → (clear_stack_win_caller_registers (x86_walker get_memory_at_address) s).caller_validity
          (name_of r)
        ≡ s.caller_validity (name_of r)
  unfolding clear_stack_win_caller_registers
  clear_stack_win_caller_registers_idle s = clear_all_idle output_regs s (
    dollar_names_none (text "eip") r,
    (
      dollar_names_none (text "esp") r,
      (
        dollar_names_none (text "ebp") r,
        (
          dollar_names_none (text "ebx") r,
          (dollar_names_none (text "esi") r, (dollar_names_none (text "edi") r, tt)),
        ),
      ),
    ),
  )
