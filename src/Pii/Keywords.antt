-- ===== src/Pii/Keywords.antt =====
-- The keyword lists of internal/pii/pipeline.go.
use alfa_hakaton.Common.{Bytes, List, [], ◌∷◌, utf8}

-- Documents whose date of issue is not a passport's.
abbrev pub non_passport_contexts : List Bytes
non_passport_contexts =
    utf8 "в/у"
    ∷ utf8 "водительск"
    ∷ utf8 "вид на жительство"
    ∷ utf8 "внж"
    ∷ utf8 "доверенность"
    ∷ utf8 "справка"
    ∷ utf8 "действительн"
    ∷ utf8 "билет"
    ∷ utf8 "полис"
    ∷ utf8 "сертификат"
    ∷ utf8 "лицензия"
    ∷ []

abbrev pub non_passport_word_contexts : List Bytes
non_passport_word_contexts = utf8 "ву" ∷ []

abbrev pub issue_contexts : List Bytes
issue_contexts =
    utf8 "выдан"
    ∷ utf8 "выдано"
    ∷ utf8 "выдали"
    ∷ utf8 "выдал"
    ∷ utf8 "выдала"
    ∷ utf8 "дата выдачи"
    ∷ utf8 "дату выдачи"
    ∷ utf8 "получал"
    ∷ utf8 "получала"
    ∷ utf8 "получил"
    ∷ utf8 "получила"
    ∷ utf8 "получен"
    ∷ utf8 "поменял"
    ∷ utf8 "поменяла"
    ∷ utf8 "doc_issue"
    ∷ utf8 "issue"
    ∷ []

abbrev pub birth_contexts : List Bytes
birth_contexts =
    utf8 "родился"
    ∷ utf8 "родилась"
    ∷ utf8 "родился"
    ∷ utf8 "родились"
    ∷ utf8 "родил"
    ∷ utf8 "рожден"
    ∷ utf8 "рождён"
    ∷ utf8 "дата рождения"
    ∷ utf8 "дату рождения"
    ∷ utf8 "уроженец"
    ∷ utf8 "уроженка"
    ∷ utf8 "г.р."
    ∷ utf8 "г. р."
    ∷ utf8 "д.р."
    ∷ utf8 "др"
    ∷ utf8 "род."
    ∷ utf8 "род"
    ∷ utf8 "рожд."
    ∷ utf8 "рожд"
    ∷ utf8 "birth"
    ∷ utf8 "dob"
    ∷ utf8 "born"
    ∷ []

-- What stands right of a date of issue.
abbrev pub code_contexts : List Bytes
code_contexts = utf8 "код подразделения" ∷ utf8 "к/п" ∷ utf8 "код подр" ∷ []

abbrev pub birth_header : Bytes
birth_header = utf8 "дата рождения"
