-- ===== src/Lib.antt =====
-- The core of VCHIQ, the message queue between the ARM and the VideoCore of a Raspberry Pi, on which
-- the camera, codec, ISP, audio and memory drivers of this repository stand: in
-- interface/vchiq_arm, vchiq_core.c with its headers, vchiq_connected.c, vchiq_util.c,
-- vchiq_shim.c, the bulk functions and page lists of vchiq_2835_arm.c, and of vchiq_arm.c the use
-- counts with the suspend and resume machines and the completions of the character device.
--
-- The two sides share a memory of slots of 4096 bytes. Each side owns half of them: it writes
-- messages, each a header and a payload, one behind the other into a slot (`reserve_space`,
-- `copy_message_data`, `queue_message`), shows how far it got in `tx_pos`, and rings the other
-- side, which gives slots back through a queue. A service is one end of a connection; it stands
-- in a table under its port (`vchiq_add_service_internal`, `find_service_by_handle`), is kept
-- while it has users, and has a quota of messages and of slots. Large data goes by bulk
-- transfers, of which a service has four in each direction (`vchiq_bulk_transfer`,
-- `notify_bulks`, `abort_outstanding_bulks`).
--
-- Which file models what:
--   Base, Base/*        Boolean tests, lists, updates of functions, bit fields and words
--   Vchiq/Message       message words and strides: VCHIQ_MAKE_MSG, VCHIQ_MSG_TYPE, calc_stride
--   Vchiq/State         the structs and enumerations of vchiq_core.h and vchiq_if.h
--   Vchiq/Slots         vchiq_init_slots, vchiq_init_state up to vchiq_platform_init_state
--   Vchiq/Bulk          the bulk queues of a service
--   Vchiq/Service       the table of services and its lookups, lock_service, unlock_service,
--                       mark_service_closing_internal, vchiq_free_service_internal
--   Vchiq/Register      vchiq_add_service_internal
--   Vchiq/Reserve       reserve_space, remote_event_signal
--   Vchiq/Copy          copy_message_data
--   Vchiq/Transmit      queue_message, queue_message_sync
--   Vchiq/Release       claim_slot, release_slot, release_service_messages, vchiq_release_message
--   Vchiq/FreeQueue     process_free_queue
--   Vchiq/Transfer      vchiq_bulk_transfer, memcpy_copy_callback
--   Vchiq/Open          parse_open
--   Vchiq/Receive       parse_rx_slots but for its loop, one function for each case
--   Vchiq/Handler       the loop of parse_rx_slots, slot_handler_func, recycle_func, sync_func
--   Vchiq/Poll          request_poll, the end of notify_bulks
--   Vchiq/PollServices  poll_services
--   Vchiq/Close         close_service_complete, vchiq_close_service_internal,
--                       vchiq_terminate_service_internal
--   Vchiq/Shutdown      vchiq_close_service, vchiq_remove_service, vchiq_shutdown_internal
--   Vchiq/Connect       vchiq_set_conn_state, vchiq_connect_internal,
--                       vchiq_open_service_internal
--   Vchiq/Suspend       set_suspend_state, set_resume_state, vchiq_arm_init_state and the timers
--   Vchiq/Power         vchiq_release_internal, vchiq_check_suspend, vchiq_check_resume,
--                       vchiq_platform_check_suspend, vchiq_arm_vcsuspend
--   Vchiq/Wake          vchiq_use_internal, vchiq_use_service
--   Vchiq/Keepalive     the round of vchiq_keepalive_thread_func
--   Vchiq/HeaderQueue   the queue of headers of vchiq_util.c
--   Vchiq/Window        a ring between two counters as a list
--   Vchiq/Shim          the VCHI layer of vchiq_shim.c
--   Vchiq/Completion    add_completion, close_delivered
--   Vchiq/Callback      service_callback, VCHIQ_IOC_DEQUEUE_MESSAGE
--   Vchiq/Await         VCHIQ_IOC_AWAIT_COMPLETION
--   Vchiq/Gather        vchiq_ioc_copy_element_data, vchiq_ioc_queue_message
--   Vchiq/PageList      create_pagelist: the pages of a buffer and the words that list them
--   Vchiq/Fragments     free_pagelist: the partial cache lines at the ends of a buffer
--   Vchiq/Client        vchiq_queue_message, vchiq_set_service_option, vchiq_get_peer_version,
--                       vchiq_get_client_id; vchiq_check_service of vchiq_arm.c
--   Vchiq/Connected     vchiq_add_connected_callback, vchiq_call_connected_callbacks
-- The modules below each of these hold its theorems, and Tests its runs at concrete inputs.
--
-- State and concurrency. `State` is struct vchiq_state, with the shared half of this side as
-- `here` (`local` in the source) and the memory of the slots as the headers in it. A function of
-- the source that changes the state is a function from state to state. Where it waits, the lock
-- that guards the state may be dropped, so the state in which a wait ends is an argument: what
-- other threads did is any change at all, and a theorem names what it needs of it.
--
-- Numbers are natural numbers, and the wrap-around of a C type is written out: the stream
-- positions and the bulk counters at 2 ^ 32, the quotas' counts at 2 ^ 16; size_t and long have 32
-- bits, as on the 32-bit ARM.
--
-- Fuel. `copy_loop` has as much fuel as there are bytes left, as each round copies one at least.
-- `notify_loop` runs over the distance of its two counters. `abort_loop` is given the distance of
-- `process` from the further one of the two insertion counters. `scan` and the two searches for a
-- place run over the table. The walks over the messages of a slot have 512 steps, as a message
-- takes eight bytes of the 4096 at least. `copy_elements` has a round for each element and two more, and
-- `list_pages` one for each page, of which a round lists one at least.
--
-- Left out: threads and the locks that guard one function, logging and the debug array; most calls of
-- the character device; the pinning and mapping of the pages of a bulk transfer, so that its page
-- list is a parameter of it; the drivers that use the core.
pub mod Base
pub mod Vchiq
