-- ===== src/Tests/BrowserImport.antt =====
-- A table with quotes, one with a quote that is not closed, and the import of a record.
use tarvaultsync.Prelude.{◌≡◌, refl, ◌⊎◌, none, some, true, ℕ_discrete, nat_eq, [], ◌∷◌}
use tarvaultsync.Prelude.Text.{text}
use tarvaultsync.Prelude.Result.{ok, err}
use tarvaultsync.Core.{Bytes}
use tarvaultsync.BrowserImport.{next_state, end_state, quotes_from, strict_quotes, incomplete_csv}
use tarvaultsync.BrowserImport.Quotes.{IsTable, strict_quotes-IsTable}
use tarvaultsync.BrowserImport.{CsvParts, Selected, import_file}
use tarvaultsync.BrowserImport.Consent.{Refused, IsParsed, import_file-IsParsed}
use tarvaultsync.Vault.Source.{Host}
use tarvaultsync.Tests.Targets.{Disk}
use tarvaultsync.Tests.Sources.{vault, blank}

abbrev table : Bytes
table = text "url,\"a\"\"b,c\"\nx,\"\""

strict_quotes_run : strict_quotes table ≡ ok tt
unfolding strict_quotes quotes_from next_state end_state nat_eq ℕ_discrete
strict_quotes_run = refl

open_run : strict_quotes (text "url,\"a") ≡ err incomplete_csv
unfolding strict_quotes quotes_from next_state end_state nat_eq ℕ_discrete
open_run = refl

strict_quotes-IsTable_example :
    (strict_quotes table ≡ ok tt → IsTable table) × (IsTable table → strict_quotes table ≡ ok tt)
strict_quotes-IsTable_example = strict_quotes-IsTable table

-- A reader that gives the header and one record
abbrev csv : CsvParts
csv = record {
  read_records = λ bytes.
      some (text "url" ∷ text "username" ∷ text "password" ∷ [])
      ∷ some (text "x" ∷ text "y" ∷ text "z" ∷ [])
      ∷ [];
  is_utf8 = λ bytes. true;
  to_json = λ m. some (text "{}");
}

abbrev selected : Selected Disk
selected = record {
  metadata = λ path w. some (some (true, 10));
  read_up_to = λ n path w. some table;
}

abbrev host : Host Disk
host = record {
  source = record {
    vault = some (record {
      path = text "/r/vault";
      remote = none;
      salt = [];
      key = [];
      manifest = record { version = 2; entries = [] };
      sealed = [];
      last_used = 0;
    });
    path = text "/r/vault";
    connection = text "local";
    remote = none;
  };
  world = blank;
}

import_file-IsParsed_example :
    Refused csv vault selected host
      (import_file csv vault selected 1 (text "/r/x.csv") (text "firefox") true host)
    ⊎ IsParsed csv vault selected
        (text "/r/x.csv")
        (text "firefox")
        true
        1
        host
        (import_file csv vault selected 1 (text "/r/x.csv") (text "firefox") true host)
import_file-IsParsed_example =
    import_file-IsParsed csv vault selected 1 (text "/r/x.csv") (text "firefox") true host
