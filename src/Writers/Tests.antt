-- ===== src/Writers/Tests.antt =====
-- A writer of the RPC module.
use libkrossbar.Prelude.{◌≡◌, []}
use libkrossbar.Writers.{Writer, rpc_message_cancel, message_cancel}
use libkrossbar.Writers.Cancel.{outcome, message_cancel_lem}

abbrev call_writer : Writer
call_writer = record { at = 4096; buffer = 8192; cancel = rpc_message_cancel }

message_cancel_lem_example :
    message_cancel 100 call_writer [] ≡ outcome call_writer [] rpc_message_cancel
message_cancel_lem_example = message_cancel_lem 99 call_writer []
