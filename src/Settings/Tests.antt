-- ===== src/Settings/Tests.antt =====
-- An instance of the law of the page.
use ahmed_sila.Base.{◌≡◌, refl, List, [], ◌∷◌}
use ahmed_sila.Text.{txt, text_eq}
use ahmed_sila.Settings.Store.{get, save_template}
use ahmed_sila.Settings.Screen.{on_data, dirty, save_disabled, saved_at}
use ahmed_sila.Settings.Journey.{Press, typed, restore, save, arrive, act, acts}
use ahmed_sila.Settings.Journey.Laws.{Sent, acts-saved_at}

-- A text saved and read again, another typed, and the first one typed once more; the last press stands first.
abbrev presses : List Press
presses =
    typed (txt "Код {код}") ∷ restore ∷ arrive ∷ save (txt "10:05") ∷ typed (txt "Код {код}") ∷ []

acts-saved_at_example :
    ((acts presses).state.text ≡ txt "Код {код}") × Sent presses (txt "10:05") (txt "Код {код}")
unfolding acts act get save_template on_data dirty save_disabled saved_at text_eq
acts-saved_at_example = acts-saved_at presses (txt "10:05") refl
