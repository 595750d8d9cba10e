-- ===== src/Clients/Keys.antt =====
-- The keys of the query cache in web/src/features/clients/useClients.ts.
use ahmed_sila.Base.{List, [], ◌∷◌}
use ahmed_sila.Text.{Text, txt}

-- A key of the query cache is a list of texts.
abbrev pub Key : Type 0
Key = List Text

abbrev pub all_clients : Key
all_clients = txt "clients" ∷ []

abbrev pub list : Key
list = txt "clients" ∷ txt "list" ∷ []

abbrev pub detail : Text → Key
detail id = txt "clients" ∷ txt "detail" ∷ id ∷ []

abbrev pub tickets : Text → Key
tickets id = txt "clients" ∷ txt "tickets" ∷ id ∷ []

abbrev pub journal : Text → Key
journal id = txt "clients" ∷ txt "journal" ∷ id ∷ []

abbrev pub email_taken : Text → Key
email_taken email = txt "clients" ∷ txt "email-taken" ∷ email ∷ []
