-- ===== src/Setup/Verified.antt =====
-- What `verify_options` of worker/worker.c lets through.
use mod_gearman.Common.{
  ℕ, Bool, true, false, not, ◌&&◌, ◌==◌, ltb, if◌then◌else◌, Option, none, some, ◌≡◌, ◌≢◌, ◌≤◌, ◌⊎◌,
  arith, if_both,
}
use mod_gearman.Setup.{
  Options, log_trace, is_set, quiet, default_queues, serves_nothing, verify_options,
}

-- The options with which a worker can start.
pub record IsReady (opt : Options) : Type 0 where
  pub reachable : opt.server_num ≢ 0
  pub serves : serves_nothing opt ≡ false
  pub bounded : opt.min_worker ≤ opt.max_worker
  pub silent : opt.daemon_mode ≡ true → opt.debug_level ≤ log_trace
  pub keyed : opt.encryption ≡ true → (is_set opt.crypt_key ≡ true) ⊎ (is_set opt.keyfile ≡ true)

abbrev pub Ready : Option Options → Type 0
Ready none = Unit
Ready (some opt) = IsReady opt

bounded : (least most : ℕ) → (if ltb most least then most else least) ≤ most
bounded least most = ground arith

silent :
    (level : ℕ) (daemon : Bool)
    → daemon ≡ true
    → (if ltb log_trace level && daemon then log_trace else level) ≤ log_trace
silent level daemon e = ground (arith, e)

has_key :
    (encrypts key file : Bool)
    → (encrypts && (not key && not file)) ≡ false
    → encrypts ≡ true
    → (key ≡ true) ⊎ (file ≡ true)
has_key encrypts key file h e = ground (arith, h, e)

-- Options that pass have a server, a queue to serve, a key if they encrypt, a minimum of workers
-- that does not pass the maximum, and as a daemon no log that goes to the terminal.
verify_options-Ready : (opt : Options) → Ready (verify_options opt)
unfolding verify_options
verify_options-Ready opt =
    let queued = default_queues (quiet opt) in
    if_both Ready (opt.server_num == 0) (λ _. tt)
      (λ server.
        if_both Ready (serves_nothing queued) (λ _. tt)
          (λ serves.
            if_both Ready
              (queued.encryption && (not (is_set queued.crypt_key) && not (is_set queued.keyfile)))
              (λ _. tt)
              (λ keyed. record {
                reachable = ground (arith, server);
                serves = serves;
                bounded = bounded queued.min_worker queued.max_worker;
                silent = silent opt.debug_level opt.daemon_mode;
                keyed =
                    has_key queued.encryption (is_set queued.crypt_key) (is_set queued.keyfile)
                      keyed;
              })))
