-- ===== src/Cpu/State.antt =====
-- The fields of `CPU` in emulator/include/cpu.hh, and what its methods may raise.
-- Words are their unsigned bit patterns; an array is a function of the index. The clock is read in
-- nanoseconds. The mutex, the worker thread and the boot file have no field.
use anc.Base.{ℕ, Bool, Option}
use anc.Cpu.Status.{Status}

-- The texts that `failure` takes.
pub data Failure : Type 0 where
  unhandled : ℕ → Option ℕ → Failure
  invalid_system_stack nmi_entry persist_failed : Failure

-- The debugger's part of the state.
pub record Debug : Type 0 where
  pub breakpoints : ℕ → Option Bool
  pub breakpoint_hit : Option ℕ
  pub resume_breakpoint : Option ℕ
  pub temporary_pc : Option ℕ
  pub temporary_sp : Option ℕ
  pub temporary_hit : Bool
  pub instruction_count : ℕ
  pub stop_serial : ℕ

pub record Cpu : Type 0 where
  pub reg : ℕ → ℕ
  pub sr : Status
  pub sp : ℕ
  pub bp : ℕ
  pub pc : ℕ
  pub current_instruction : ℕ
  pub imem : ℕ → ℕ
  pub mtu : ℕ → ℕ
  pub cpuid : ℕ
  pub timer : ℕ
  pub timer_running : Bool
  pub timer_tick : ℕ
  pub killed : Bool
  pub running : Bool
  pub reset_requested : Bool
  pub shutdown_requested : Bool
  pub failure : Option Failure
  pub debug : Debug
