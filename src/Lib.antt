-- ===== src/Lib.antt =====
-- Verification of mod_gearman, which sends the checks of a monitoring core to workers through a
-- gearman job server.
--
-- The core's module writes a job as lines `key=value`, encrypts it and puts it into a queue. A
-- worker takes it, runs the plugin and sends a result back through another queue, which a thread
-- of the module reads. On the worker's host a main process keeps a pool of worker processes; they
-- tell each other their states by slots in shared memory.
--
-- Common holds the shared helpers: Boolean tests, lists over the native numbers, C strings as
-- lists of bytes (Strings), integers (Int) and the results of C functions (Outcome).
-- Text is the string part of common/utils.c: ltrim, rtrim, trim (Text, Text/Trim),
-- gm_escape_newlines and escapestring (Text/Escape), replace_str (Text/Replace).
-- Crypt is common/gm_crypt.c with mod_gm_encrypt and mod_gm_decrypt of common/utils.c. OpenSSL is
-- the parameter Evp, and its documented behaviour the record EvpLaws.
-- Pool is worker/worker.c: the shared memory, get_next_shm_index, make_new_child and
-- count_current_worker (Pool), adjust_number_of_worker (Pool/Adjust), check_worker_population
-- (Pool/Population). Pool/Worker is set_state and clean_worker_exit of worker/worker_client.c.
-- Pool/System has both sides as the steps of one relation, in any order; Pool/Ownership and
-- Pool/Protocol reason about all states that it reaches. `kill`, `fork` and `shmat` answer by
-- arguments.
-- Job is the reading of a job in get_job of worker/worker_client.c, Job/Exec the running of a check
-- in common/check_utils.c with run_check in Job/Exec/Run, Job/Delivery do_exec_job of worker/worker_client.c and send_result_back
-- of common/utils.c, Job/Pipe read_pipe of common/utils.c, Job/Command parse_command_line and
-- Job/Alarm the alarm of a check and its signals, of common/check_utils.c, Job/Life worker_loop and
-- Job/Exit clean_worker_exit and return_status of worker/worker_client.c, Job/Received the whole of get_job of
-- worker/worker_client.c with its environment and its signal mask. The plugin, the system calls, the
-- alarm, the clock and `printf` are the parameter World. Where a call ends the process, or does something
-- that C does not define, its result says so: Job/Executes and Job/Sends have the reasons.
-- Pool/Shutdown is stop_children of worker/worker.c. Setup is parse_yes_or_no, add_server and
-- check_param_server of common/utils.c and verify_options of worker/worker.c.
-- Routing is set_target_queue of neb_module_naemon/mod_gearman.c and set_worker of
-- worker/worker_client.c; the objects of Naemon are records of what the code asks of them.
-- Config is the configuration: the options and their defaults (Config), the names of the keys
-- (Config/Keys), parse_args_line (Config/Line), read_config_file and read_keyfile (Config/Files) of
-- common/utils.c. Config/Steps and Config/Sound carry a property of the numbers through all of them,
-- Config/Limits uses it. The file system is an argument.
-- Result is get_results and set_worker of neb_module_naemon/result_thread.c, Result/Read the reading
-- of its lines, Result/RoundTrip the way from the worker to the core.
-- Neb is the callbacks of neb_module_naemon/mod_gearman.c for checks and event handlers: Neb/Dummy is
-- try_check_dummy, Neb/Jobs the job texts as a worker reads them, Neb/Outcomes what a check ends in,
-- Neb/Delay handle_hst_check_result and handle_svc_check_result, Neb/Export handle_export,
-- Neb/Perfdata handle_perfdata, Neb/Notify handle_notifications, Neb/Collect
-- the list of results, Neb/Templates xpddefault_preprocess_file_templates, Neb/Registered
-- register_neb_callbacks.
-- Gearman is add_job_to_queue of common/gearman_utils.c, Gearman/Attempts how often it sends.
-- Status is get_gearman_server_data and send2gearmandadmin of common/gearman_utils.c, Status/Check
-- check_server of tools/check_gearman.c. Multi is tools/send_multi.c: the stream of check_multi in
-- its buffer, its chunks and their results; Multi/Decode is decode_xml.
-- Tests has each theorem at a concrete input.
--
-- Loops over a text are structural. The loops of replace_str take the length of the text and one as
-- their fuel, which is enough since each round shortens the text. read_lines takes as many rounds
-- as the text has bytes and one, since each round takes a line. count_loop has one round for each
-- slot. read_multi_stream takes as many rounds as its stream has bytes and one; decode_xml as
-- many as its text has bytes, since each round shortens it, and so does parse_command_line. read_config_file recurses on fuel; it refuses a level above 10, so 12 are enough. A byte is a number; sizes of type size_t keep their wrap-around in Text/Replace; the
-- counters of the pool and the seconds of a time are taken to stay inside of an int.
--
-- Not modelled: the start and the end of the module in neb_module_naemon; the making of
-- clients and workers in common/gearman_utils.c; embedded Perl; send_gearman and gearman_top.
pub mod Common
pub mod Text
pub mod Crypt
pub mod Pool
pub mod Job
pub mod Setup
pub mod Routing
pub mod Config
pub mod Result
pub mod Neb
pub mod Gearman
pub mod Status
pub mod Multi
mod Tests
