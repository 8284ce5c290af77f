-- ===== src/Json.antt =====
-- The JSON values of requests and responses (Go's map[string]any for encoding/json), and an HTTP answer.
use running_hackathon.Prelude.{ℕ, String, Bool, Option, none, some, List, [], ◌∷◌, str_eq}
use running_hackathon.Clock.{Time}

mutual
  pub data Json : Type 0 where
    null : Json
    flag : Bool → Json
    num : ℕ → Json
    text : String → Json
    obj : Fields → Json
    arr : Items → Json

  -- The fields of an object, and the items of an array.
  pub data Fields : Type 0 where
    done : Fields
    field : String → Json → Fields → Fields

  pub data Items : Type 0 where
    last : Items
    item : Json → Items → Items

abbrev pub items : List Json → Items
items [] = last
items (j ∷ js) = item j (items js)

-- Fields in the order in which the code writes them.
abbrev pub fields : List (String × Json) → Fields
fields [] = done
fields ((name, j) ∷ rest) = field name j (fields rest)

abbrev pub object : List (String × Json) → Json
object fs = obj (fields fs)

-- A response: its status, its JSON, page or text, and the session cookie that it sets. The other headers
-- are not kept.
pub data Body : Type 0 where
  json : Json → Body
  plain : String → Body
  twiml : String → Body
  redirect : String → Body
  page : String → List (String × Json) → Body

-- The cookie of the session: its value, its expiry, and whether the browser is told to drop it.
pub record Cookie : Type 0 where
  pub value : String
  pub expires : Time
  pub forget : Bool

pub record Response : Type 0 where
  pub status : ℕ
  pub body : Body
  pub cookie : Option Cookie

-- setSessionCookie: an empty token means "forget this".
abbrev pub set_session_cookie : String → Time → Response → Response
set_session_cookie token expires r = record r {
  cookie = some record { value = token; expires = expires; forget = str_eq token "" };
}

-- writeJSON and http.Error
abbrev pub write_json : ℕ → List (String × Json) → Response
write_json status fs = record { status = status; body = json (object fs); cookie = none }

abbrev pub http_error : ℕ → String → Response
http_error status what = record { status = status; body = plain what; cookie = none }

abbrev pub write_twiml : String → Response
write_twiml line = record { status = 200; body = twiml line; cookie = none }

abbrev pub redirect_to : String → Response
redirect_to path = record { status = 303; body = redirect path; cookie = none }

abbrev pub render : ℕ → String → List (String × Json) → Response
render status name fs = record { status = status; body = page name fs; cookie = none }
