-- ===== src/Handle/Types.antt =====
-- `__compat_handle_type_t` and `__compat_handle_header_t` of common_handle.h.
use learn_docs.Base.{ℕ}
use learn_docs.Memory.{Mem}

pub data HandleType : Type 0 where
  dummy_start : HandleType
  accelerator_table caret cursor dde_conversation hook icon menu window window_position : HandleType
  bitmap brush dc enhanced_metafile enhanced_metafile_dc font memory_dc metafile : HandleType
  metafile_dc palette pen_and_extended_pen region : HandleType
  access_token change_notification communications_device console_input : HandleType
  console_screen_buffer desktop directory event event_log file file_mapping heap job : HandleType
  mailslot modul mutex pipe process registry_key semaphore socket thread timer : HandleType
  timer_queue timer_queue_timer update_resource window_station : HandleType
  dummy_end : HandleType
  invalid : HandleType

-- `ctx` is the union, as its bytes by offset: the members lie over one another, so a getter of one
-- member reads whatever bytes another one has left there.
pub record Header : Type 0 where
  pub self_key : ℕ
  pub type : HandleType
  pub ctx : Mem

-- `__compat_handle_header_t {}`: every byte is 0, and the type is that with number 0.
abbrev pub zero_header : Header
zero_header = record { self_key = 0; type = HandleType.dummy_start; ctx = λ offset. 0 }
