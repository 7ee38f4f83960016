-- ===== src/Nop/Callback.antt =====
-- nps_sdk/nop/validation.py: NopCallbackValidator. urllib's urlsplit, str.lower and the addresses of
-- the module ipaddress are the parameter `urls`.
use nps_sdk_python.Prelude.{
  String, Bool, true, false, not, ◌||◌, Option, none, some, eqb, string_eq, is_blank, if◌then◌else◌,
}

pub record Urls (A : Type 0) : Type 0 where
  pub scheme : String → String
  pub netloc : String → String
  pub hostname : String → Option String
  pub lower : String → String
  pub strip_brackets : String → String  -- .strip("[]")
  pub ip_address : String → Option A  -- none for a ValueError
  pub ipv4_mapped : A → Option A  -- none as well for an address of IPv4
  pub is_private : A → Bool
  pub is_loopback : A → Bool
  pub is_link_local : A → Bool
  pub is_unspecified : A → Bool

-- what the message says
pub data CallbackError : Type 0 where
  empty_url not_absolute not_https private_host : CallbackError

-- _is_private_ip
abbrev pub is_private_ip : {A : Type 0} → Urls A → A → Bool
is_private_ip {A = A} urls ip =
    let real : A = (elim (urls.ipv4_mapped ip) [ none ↦ ip | some v4 ↦ v4 ]) in
    urls.is_private real
    || urls.is_loopback real
    || urls.is_link_local real
    || urls.is_unspecified real

-- is_private_host
abbrev pub is_private_host : {A : Type 0} → Urls A → String → Bool
is_private_host urls host =
    if eqb host ""
    then true
    else if eqb (urls.lower host) "localhost"
    then true
    else elim (urls.ip_address (urls.strip_brackets host)) [
      | none ↦ false
      | some ip ↦ is_private_ip urls ip
    ]

abbrev pub host_of : Option String → String
host_of none = ""
host_of (some host) = host

-- validate_callback_url
unfoldable pub validate_callback_url : {A : Type 0} → Urls A → Option String → Option CallbackError
validate_callback_url urls none = some empty_url
validate_callback_url urls (some url) =
    if is_blank url
    then some empty_url
    else if eqb (urls.scheme url) "" || eqb (urls.netloc url) ""
    then some not_absolute
    else if not (eqb (urls.lower (urls.scheme url)) "https")
    then some not_https
    else if is_private_host urls (host_of (urls.hostname url))
    then some private_host
    else none
