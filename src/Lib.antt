-- ===== src/Lib.antt =====
-- Helpers of this repository's desktop and of its image builds, modelled from their Python sources.
--
-- The desktop's helpers are programs of their own under roles/desktop/files/quickshell/scripts. The
-- shell starts one for each request, and they share no state but files.
--
-- * Displays models scripts/display-settings.py, the Settings page's display backend, which also
--   runs from a systemd timer: a change of the displays is tried first, and the timer restores the
--   saved rules unless it is confirmed.
--     Displays/Numbers, Keys, Entry, Document: is_int, is_number, valid_key, validate_entry, loads
--       with its hooks, validate_document.
--     Displays/Lua: first_line and lua_string. Displays/Clock: the trial's deadlines.
--     Displays/Store: encode, read_store, atomic_write, read_json_file, read_trial_state,
--       clear_trial, over a World of four files (displays.json, the candidate, the trial's state and
--       the status file), the presence of a runtime directory, and the session's state.
--     Displays/Session: run, hyprctl, reload_hyprland, arm_watchdog, disarm_watchdog, TrialLock.
--     Displays/Requests: apply, confirm, rollback, expire. Displays/Serve: monitors, snapshot, main.
--     The other files of Displays are proofs, named for what they show.
-- * Hypridle models scripts/hypridle-config.py, which writes the idle daemon's configuration from
--   the shell's settings: Settings is load_settings, Render is listener and render.
-- * Downloads models image/download_cache.py of the image builds: Fetch is cached_download, with
--   the outcome of each of its four attempts as data; Pins is pins, of an inventory that is parsed
--   already, and main's import by it; Import is allowed, verified_entries and import_cache, with the
--   files that it writes as its state; Export is export_cache, with the collected files as its
--   state; Merge is merge_cache, on the shared directory, whose write of the manifest replaces it or
--   raises. The cache and the builder's files that are read do not change while one call runs,
--   except that a blob may arrive changed in merge_cache. Verified, Pinned, Confined, Collected,
--   Exported, Restored and Shared are proofs.
-- * Plugins models scripts/user-plugins.py, the registry of the user's widget plugins (plugins.json)
--   and the commands that change it. The package directory is a parameter, the record Packages: the
--   manifests, and what pathlib says of an entry point.
--     Plugins/Ids: ID, PACKAGE_ID, valid_id. Plugins/Options: read_object, preferences, options.
--     Plugins/Manifest: package. Plugins/Scan: scan, whose `try` is fill_item and whose `except` is
--       settle_item.
--     Plugins/Layout: apply_layout. Plugins/Edit: edit_layout, on a board of three lists.
--     Plugins/Write: locked and write_preferences; a write fails before or after os.replace, or not.
--     Plugins/Commands: enable, disable, instance, merge, set, bar, bar-config and add's register.
--     Plugins/Clone: the registry's part of clone and remove, with the package already copied.
--     Plugins/Widgets: move-widget and configure-widget.
--     The other files of Plugins are proofs, named for what they show.
-- * Packages models scripts/plugin_packages.py, the source trees behind those plugins, which
--   user-plugins.py installs, updates and clones. A tree is opaque, and Git a function of its arguments
--   and a tree; the changes that others make before the lock is taken are a parameter.
--     Packages/Store: the packages directory, the temporary directory in it, the lock,
--       managed_directory and git. Packages/Install: install. Packages/Update: update.
--     Packages/Copier: find the built-in plugin, the mappings and the new manifest of clone;
--       Packages/Clone: clone, which is called under the lock.
--     Laws, Scoped, Quiet, Installed, Outcome, Merged, Updated, Parts, Copied and Cloned are proofs.
-- * Runner models image/release_runner.py, which starts one ephemeral runner for a queued release job.
--     Runner/Tag: its regular expressions. Runner/Job: validate_run, validate_job, runner_package.
--     Runner/Site: the calls of the outside (gh, systemd, the download, the archive, the staging
--       directory) with a log of them and of their answers, and `finally`.
--     Runner/Github: api, pages, reviewed_job, owned_runner, cleanup_registration.
--     Runner/Execute: download, extract, run_scoped_runner and execute. An interrupt is an exception
--       of the call that it arrives in. `attempted` is true wherever its `finally` is reached.
--     Runner/Stop: stop; what becomes of each signal and of the wait after it is data, with a signal
--       that may not be sent and a KeyboardInterrupt in a wait. run_child's call of stop is part of
--       the call of the child.
--     Reviewed, Select, Queued, Listed, Own, Cleaned and Stopped are proofs.
-- * Calendar models scripts/calendar-events.py, which lists the events of a window for the shell. The
--   bindings of the calendar library, the text of an exception, int, str.lower and casefold are
--   parameters.
--     Calendar/Window: parse_range. Calendar/Text: text and the form of a color. Calendar/Accounts: the loop over the
--       accounts. Calendar/Sources: source_is_google, whose loop over the parents takes fuel, of which
--       one more than the number of sources is enough (Google). Calendar/Listing: the list of jobs.
--     Calendar/Events: timestamp_ms, add_instance and read_source. Calendar/Results: Results.
--     Calendar/Request: emit, and one request as a relation between states: an error at the start, the
--       begin of the reading, the end of one source's thread, the end of main, and the deadline, each
--       under the locks of the code and so one step. A crash of main is no step.
--     Calendar/Spec: what the results are, as a function of the answers so far. Calendar/History: what
--       has happened, read off the steps.
--     Distinct, Visited, Google, Listing and Report have the proofs.
-- * Json is Python's view of a JSON document, with the dict operations that the helpers use.
-- * Base holds the shared numbers, texts, results and actions. An action passes a state on and may
--   raise; what it wrote before it raised stays written.
--
-- Not under this repository, and so parameters: Python's json and hashlib (Codec, with the named
-- hypotheses of IsCodec: what was printed parses back), and the session behind subprocess, time,
-- secrets and the file system (Host), both in Displays/Host; for Downloads, pathlib, re, hashlib,
-- yaml and the network; for Plugins, the record Packages and the size of a printed document; for Packages,
-- the records Site and Copier; for Runner, the record Site and urlsplit; and for Calendar, the
-- values that the bindings give. A write may fail before or after the file is replaced. The two
-- halves of a trial are serialised by TrialLock, so requests and timers are events in a sequence;
-- the session and its clock may change in between. The clock is read in 1024ths of a second, which
-- doubles hold exactly, and JSON numbers are integers or dyadic floats of any size. No definition
-- takes fuel but the loop of source_is_google, the decimal digits of a number in Hypridle/Render,
-- where a number n has fewer than n + 2 of them, and the ten halvings of a time in Displays/Clock.
--
-- Not modelled: the other helpers and the image and release tools; of display-settings.py, the
-- quotes around a key in the message of an invalid identifier; of download_cache.py, the command
-- line; of user-plugins.py, the copies of plugin code that list --live keeps for the shell,
-- touch_registry, the command lines and the calls of plugin_packages; of plugin_packages.py,
-- fingerprint, stat_signature and ignore_special, which walk real trees; of release_runner.py, the
-- command line, checkout_head and the environments of the children; and of calendar-events.py, the
-- import of the bindings and the texts of the errors at the start. The text of an OSError, and the
-- version in the text on an unsupported API, are fixed texts.
pub mod Base
pub mod Json
pub mod Displays
pub mod Hypridle
pub mod Downloads
pub mod Plugins
pub mod Packages
pub mod Runner
pub mod Calendar
