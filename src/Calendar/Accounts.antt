-- ===== src/Calendar/Accounts.antt =====
-- The Google accounts that `main` of calendar-events.py counts.
use fedora_config.Base.{ℕ, suc, Bool, Option, List, [], ◌∷◌, String, str_eq, if◌then◌else◌}
use fedora_config.Base.{Result, ok, raised, Exn, Exec, pure, lift}
use fedora_config.Base.Action.{◌>>=◌, ◌>>◌}
use fedora_config.Calendar.Text.{text, text_of_error}
use fedora_config.Calendar.Results.{Header}

-- An account, whose calls may raise.
pub record Account : Type 0 where
  pub provider_type : Result (Option String)
  pub id : Result (Option String)
  pub calendar_disabled : Result Bool

-- The variables of the loop.
pub record Found : Type 0 where
  pub accounts : ℕ
  pub calendar_accounts : ℕ
  pub ids : List String

abbrev pub none_found : Found
none_found = record { accounts = 0; calendar_accounts = 0; ids = [] }

unfoldable pub count_account : Exec Found (Unit {0})
count_account f = (ok tt, record f { accounts = suc f.accounts })

unfoldable pub add_id : String → Exec Found (Unit {0})
add_id id f = (ok tt, record f { ids = id ∷ f.ids })

unfoldable pub count_calendar_account : Exec Found (Unit {0})
count_calendar_account f = (ok tt, record f { calendar_accounts = suc f.calendar_accounts })

module _ (message : Exn → String) (lower : String → String) where
  unfoldable pub add_google_account : Account → Exec Found (Unit {0})
  add_google_account account = do
    count_account
    id ← lift account.id
    add_id (text id "" 500)
    disabled ← lift account.calendar_disabled
    if disabled then pure tt else count_calendar_account

  -- The loop's body.
  unfoldable pub add_account : Account → Exec Found (Unit {0})
  add_account account = do
    provider ← lift account.provider_type
    if str_eq (lower (text provider "" 500)) "google" then add_google_account account else pure tt

  unfoldable pub add_accounts : List Account → Exec Found (Unit {0})
  add_accounts [] = pure tt
  add_accounts (account ∷ rest) = add_account account >> add_accounts rest

  unfoldable pub goa_error_of : Result (Unit {0}) → String
  goa_error_of (ok u) = ""
  goa_error_of (raised e) = text_of_error (message e) 200

  -- `listed` is what the client and its `get_accounts` give.
  unfoldable pub read_accounts : Result (List Account) → Found × String
  read_accounts listed =
      let (r, found) = (lift listed >>= λ accounts. add_accounts accounts) none_found in
      (found, goa_error_of r)

  unfoldable pub header_of : Found × String → Header
  header_of (found, goa_error) = record {
    goa_error = goa_error;
    accounts = found.accounts;
    calendar_accounts = found.calendar_accounts;
  }
