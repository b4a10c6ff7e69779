-- ===== src/CommandCode/Auth.antt =====
-- commandcode/plugin.go: the credentials, what the host is told of them, and the headers. The environment
-- (os.Getenv), a UUID, `fmt.Sprint`, the JSON decoder and strings.EqualFold are parameters; a map of
-- attributes is the list of its pairs in the order in which a loop over it finds them.
use cpa_plugins.Base.{
  String, ◌++ₛ◌, ◌=ₛ◌, Bool, not, ◌||◌, List, [], ◌∷◌, Option, none, some, if◌then◌else◌,
  trim_space, equal_fold, lower_starts, drop_chars, Headers, put_header,
}
use cpa_plugins.CommandCode.Json.{Json, str, obj, Fields, end, Codec, field_of}

-- The first of the keys with a text that is not blank, trimmed.
unfoldable pub string_value : Fields → List String → String
unfolding field_of
string_value values [] = ""
string_value values (key ∷ keys) =
    let rest = string_value values keys in
    elim (field_of values key) [
      | some (str s) ↦ if trim_space s =ₛ "" then rest else trim_space s
      | _ ↦ rest
    ]

abbrev pub or_keep : String → String → String
or_keep value old = if value =ₛ "" then old else value

-- `baseURL` and `apiKey`.
pub record Credentials : Type 0 where
  pub base_url : String
  pub api_key : String

abbrev pub Attributes : Type 0
Attributes = List (String × String)

-- attrs[key]
unfoldable pub attribute : Attributes → String → String
attribute [] key = ""
attribute ((k, value) ∷ attrs) key = if k =ₛ key then value else attribute attrs key

abbrev fields_or_empty : Option Json → Fields
fields_or_empty (some (obj fs)) = fs
fields_or_empty _ = end

abbrev nested_key : Option Json → String
nested_key (some (obj nested)) =
    string_value nested ("api_key" ∷ "apiKey" ∷ "access_token" ∷ "access" ∷ [])
nested_key _ = ""

-- One turn of the loop over the sources.
unfoldable pub read_source : Fields → Credentials → Credentials
unfolding string_value
read_source source c = record {
  base_url =
      or_keep (string_value source ("base_url" ∷ "baseURL" ∷ "api_base" ∷ "apiBase" ∷ []))
        c.base_url;
  api_key = or_keep (nested_key (field_of source "commandcode")) (
      or_keep
        (string_value source
          ("api_key" ∷ "apiKey" ∷ "access_token" ∷ "access" ∷ "commandcode" ∷ []))
        c.api_key);
}

-- authData, without the fields that stay empty.
pub record AuthData : Type 0 where
  pub provider : String
  pub id : String
  pub file_name : String
  pub label : String
  pub storage_json : String
  pub metadata : Fields
  pub attributes : Attributes

pub record AuthParseRequest : Type 0 where
  pub provider : String
  pub file_name : String
  pub raw_json : String

pub record AuthModelRequest : Type 0 where
  pub auth_id : String
  pub storage_json : String
  pub metadata : Fields
  pub attributes : Attributes

unfoldable pub auth_from_request : AuthModelRequest → AuthData
auth_from_request request = record {
  provider = "commandcode";
  id = request.auth_id;
  file_name = "";
  label = "";
  storage_json = request.storage_json;
  metadata = request.metadata;
  attributes = request.attributes;
}

-- The constant headers.
abbrev base_headers : Headers
base_headers =
    ("Accept", "text/event-stream" ∷ [])
    ∷ ("Content-Type", "application/json" ∷ [])
    ∷ ("User-Agent", "cli" ∷ [])
    ∷ ("x-command-code-version", "1.15.0" ∷ [])
    ∷ ("x-cli-environment", "production" ∷ [])
    ∷ ("x-project-slug", "pi-cc" ∷ [])
    ∷ ("x-taste-learning", "false" ∷ [])
    ∷ ("x-co-flag", "false" ∷ [])
    ∷ []

module _ (getenv : String → String) (codec : Codec) where
  unfoldable pub environment : Credentials
  environment = record {
    base_url =
        or_keep (trim_space (getenv "COMMANDCODE_API_URL"))
          (or_keep (trim_space (getenv "COMMANDCODE_API_BASE")) "https://api.commandcode.ai");
    api_key =
        or_keep (trim_space (getenv "COMMAND_CODE_API_KEY"))
          (trim_space (getenv "COMMANDCODE_API_KEY"));
  }

  unfoldable pub credentials : String → Fields → Attributes → Credentials
  unfolding environment read_source attribute
  credentials storage metadata attrs =
      let stored = fields_or_empty (codec.unmarshal storage) in
      let c = read_source metadata (read_source stored environment) in
      record {
        base_url = or_keep (trim_space (attribute attrs "base_url")) c.base_url;
        api_key = or_keep (trim_space (attribute attrs "api_key")) c.api_key;
      }

  -- `uuid_of` is uuid.NewSHA1 over the URL namespace.
  module _ (uuid_of : String → String) where
    abbrev is_ours : String → String → Bool
    is_ours provider type_name =
        provider =ₛ "commandcode"
        || equal_fold type_name "commandcode"
        || equal_fold type_name "command-code"

    abbrev auth_data : AuthParseRequest → Fields → Credentials → AuthData
    auth_data request fs c = record {
      provider = "commandcode";
      id =
          or_keep (string_value fs ("id" ∷ [])) (uuid_of (request.file_name ++ₛ ":" ++ₛ c.api_key));
      file_name = request.file_name;
      label = string_value fs ("label" ∷ []);
      storage_json = request.raw_json;
      metadata = fs;
      attributes = ("api_key", c.api_key) ∷ ("base_url", c.base_url) ∷ [];
    }

    abbrev parse_with : AuthParseRequest → Fields → Option AuthData
    parse_with request fs =
        let c = credentials request.raw_json fs [] in
        if not (is_ours request.provider (string_value fs ("type" ∷ "provider" ∷ [])))
        then none
        else if c.api_key =ₛ ""
        then none
        else some (auth_data request fs c)

    -- `none` is the answer that is not handled; null is the nil map.
    abbrev parse_document : AuthParseRequest → Option Json → Option AuthData
    parse_document request none = none
    parse_document request (some (obj fs)) = parse_with request fs
    parse_document request (some Json.null) = parse_with request end
    parse_document request (some _) = none

    unfoldable pub parse_auth : AuthParseRequest → Option AuthData
    unfolding credentials string_value
    parse_auth request = parse_document request (codec.unmarshal request.raw_json)

  -- `canonical` is http.CanonicalHeaderKey, which `Set` applies, and `fresh` a new UUID.
  module _ (canonical : String → String) (fresh : String) where
    -- The loop over the attributes.
    unfoldable pub add_attributes : Attributes → Headers → Headers
    add_attributes [] headers = headers
    add_attributes ((key, value) ∷ attrs) headers = add_attributes attrs (
        if lower_starts key "header:"
        then put_header (canonical (trim_space (drop_chars 7 key))) (value ∷ []) headers
        else headers)

    abbrev set_unless_empty : String → String → Headers → Headers
    set_unless_empty name value headers =
        if value =ₛ "" then headers else put_header name (("Bearer " ++ₛ value) ∷ []) headers

    unfoldable pub command_code_headers : String → String → Attributes → Headers
    unfolding add_attributes
    command_code_headers api_key session attrs =
        let authorized = set_unless_empty "Authorization" api_key base_headers in
        let identified = put_header "X-Session-Id" (or_keep session fresh ∷ []) authorized in
        add_attributes attrs (
          if getenv "CMD_ZDR" =ₛ "1"
          then put_header "X-Cmd-Zdr" ("1" ∷ []) identified
          else identified)
