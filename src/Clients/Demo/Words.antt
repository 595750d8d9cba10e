-- ===== src/Clients/Demo/Words.antt =====
-- web/src/features/clients/mock.ts: the words of which the demo details are made, and `translit`.
use ahmed_sila.Base.{ℕ, List, [], ◌∷◌, ◌++◌, ◌==◌, if◌then◌else◌}
use ahmed_sila.Text.{Text, txt}

-- `OWNERS`
abbrev pub owners : List Text
owners =
    txt "Ержан Сапаров"
    ∷ txt "Динара Абенова"
    ∷ txt "Марат Жумабеков"
    ∷ txt "Асель Нурланова"
    ∷ txt "Тимур Оспанов"
    ∷ txt "Гульмира Ахметова"
    ∷ txt "Санжар Калиев"
    ∷ txt "Алия Досжанова"
    ∷ []

-- `STREETS`
abbrev pub streets : List Text
streets =
    txt "ул. Байтурсынова 41"
    ∷ txt "пр. Абая 112"
    ∷ txt "ул. Сейфуллина 8"
    ∷ txt "мкр. Самал-2, 33"
    ∷ txt "ул. Толе би 275"
    ∷ txt "пр. Назарбаева 19"
    ∷ txt "ул. Кунаева 54"
    ∷ txt "ул. Жамбыла 7"
    ∷ []

-- `SLUGS`
abbrev pub slugs : List Text
slugs =
    txt "magnum"
    ∷ txt "prodmarket"
    ∷ txt "svetofor"
    ∷ txt "aisberg"
    ∷ txt "bereke"
    ∷ txt "dastarkhan"
    ∷ txt "smak"
    ∷ txt "gross"
    ∷ txt "anuar"
    ∷ txt "nebo"
    ∷ txt "apelsin"
    ∷ txt "titan"
    ∷ txt "kuanysh"
    ∷ txt "nauryz"
    ∷ txt "bazar"
    ∷ txt "rodnik"
    ∷ []

-- The table of `translit`, and the Latin letters of one character.
abbrev pub translit_table : List (ℕ × Text)
translit_table =
    (1072, txt "a")
    ∷ (1073, txt "b")
    ∷ (1074, txt "v")
    ∷ (1075, txt "g")
    ∷ (1076, txt "d")
    ∷ (1077, txt "e")
    ∷ (1078, txt "zh")
    ∷ (1079, txt "z")
    ∷ (1080, txt "i")
    ∷ (1081, txt "y")
    ∷ (1082, txt "k")
    ∷ (1083, txt "l")
    ∷ (1084, txt "m")
    ∷ (1085, txt "n")
    ∷ (1086, txt "o")
    ∷ (1087, txt "p")
    ∷ (1088, txt "r")
    ∷ (1089, txt "s")
    ∷ (1090, txt "t")
    ∷ (1091, txt "u")
    ∷ (1092, txt "f")
    ∷ (1093, txt "h")
    ∷ (1094, txt "c")
    ∷ (1095, txt "ch")
    ∷ (1096, txt "sh")
    ∷ (1097, txt "sch")
    ∷ (1099, txt "y")
    ∷ (1101, txt "e")
    ∷ (1102, txt "yu")
    ∷ (1103, txt "ya")
    ∷ (1098, [])
    ∷ (1100, [])
    ∷ []

abbrev pub letters : ℕ → List (ℕ × Text) → Text
letters c [] = c ∷ []
letters c ((k, l) ∷ t) = let rest = letters c t in if k == c then l else rest

-- `translit(value)`
unfoldable pub translit : Text → Text
translit [] = []
translit (c ∷ s) = letters c translit_table ++ translit s
