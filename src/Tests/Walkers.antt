-- ===== src/Tests/Walkers.antt =====
-- A walker over one frame: memory of 8-byte words, registers by name.
use rust_minidump.Base.{ℕ, true, Option, none, some, Bytes, text, bytes_eq, nat_eq, if◌then◌else◌}
use rust_minidump.SymFile.FrameWalker.{FrameWalker}

-- What has been written: the caller's registers, the CFA and the return address.
pub record Frame : Type 0 where
  pub caller : Bytes → Option ℕ
  pub cfa : Option ℕ
  pub ra : Option ℕ

abbrev pub no_frame : Frame
no_frame = record { caller = λ _. none; cfa = none; ra = none }

abbrev pub memory : ℕ → Option ℕ
memory a =
    if nat_eq a 1000
    then some 7
    else if nat_eq a 1008
    then some 4242
    else if nat_eq a 1016
    then some 99
    else none

abbrev pub callee : Bytes → Option ℕ
callee r =
    if bytes_eq r (text "rsp") then some 1000 else if bytes_eq r (text "rip") then some 55 else none

abbrev pub put : Bytes → Option ℕ → Frame → Frame
put reg v s = record s { caller = λ r. if bytes_eq reg r then v else s.caller r }

abbrev pub one_frame : FrameWalker Frame
one_frame = record {
  get_instruction = λ s. 55;
  has_grand_callee = λ s. true;
  get_grand_callee_parameter_size = λ s. 0;
  get_register_at_address = λ s a. memory a;
  get_callee_register = λ s r. callee r;
  set_caller_register = λ reg v s. (some tt, put reg (some v) s);
  clear_caller_register = λ reg s. put reg none s;
  set_cfa = λ v s. (some tt, record s { cfa = some v });
  set_ra = λ v s. (some tt, record s { ra = some v });
}
