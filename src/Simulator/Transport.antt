-- ===== src/Simulator/Transport.antt =====
-- simulator/mqtt_transport.py: the message of a device, the checks of the target, and the publisher. How
-- the broker and the MQTT library answer is an input of each call.
pub mod Message
pub mod Connected
use Prim.Native.Char.{code}
use industrial_equipment_mon.Prelude.{
  ℕ, suc, ◌+◌, String, Bool, true, false, ◌&&◌, ◌||◌, not, Option, none, some, List, [], ◌∷◌, leb,
  nat_eq, str_eq, if◌then◌else◌,
}
use industrial_equipment_mon.Prelude.Texts.{concat, has_character}
use industrial_equipment_mon.Decimal.{ℤ, pos, negsuc}
use industrial_equipment_mon.Telemetry.Json.{Value, integer, Members, end, member}
use industrial_equipment_mon.Devices.Registration.{is_space}
use industrial_equipment_mon.Simulator.Client.{is_blank}

-- `payload[key] = value`: in place where the key is there, at the end where it is not.
unfoldable pub set_member : String → Value → Members → Members
set_member key v end = member key v end
set_member key v (member k w rest) =
    if str_eq k key then member k v rest else member k w (set_member key v rest)

unfoldable pub update : Members → Members → Members
update payload end = payload
update payload (member k v rest) =
    if str_eq k "gateway_received_at"
    then update payload rest
    else update (set_member k v payload) rest

-- The object that is encoded.
unfoldable pub device_message : Members → Members
unfolding update set_member
device_message event = update (member "schema_version" (integer (pos 1)) end) event

abbrev pub has_space : String → Bool
has_space String.[] = false
has_space (String.◌∷◌ c s) = is_space (code c) || has_space s

abbrev pub is_tcp_port : ℤ → Bool
is_tcp_port (pos n) = leb 1 n && leb n 65535
is_tcp_port (negsuc n) = false

abbrev pub ends_with : ℕ → String → Bool
ends_with k String.[] = false
ends_with k (String.◌∷◌ c String.[]) = nat_eq (code c) k
ends_with k (String.◌∷◌ c (String.◌∷◌ d s)) = ends_with k (String.◌∷◌ d s)

-- `s[:-1]`
abbrev pub without_last : String → String
without_last String.[] = String.[]
without_last (String.◌∷◌ c String.[]) = String.[]
without_last (String.◌∷◌ c (String.◌∷◌ d s)) = String.◌∷◌ c (without_last (String.◌∷◌ d s))

abbrev pub without_return : String → String
without_return s = if ends_with 13 s then without_last s else s

-- One newline at the end is dropped, and a carriage return before it.
unfoldable pub one_line : String → String
one_line s = if ends_with 10 s then without_return (without_last s) else s

pub data TargetError : Type 0 where
  bad_device_id bad_host bad_port bad_username unreadable_file bad_password : TargetError

pub data Target : Type 0 where
  accepted : String → Target
  refused : TargetError → Target

abbrev pub check_password : String → Target
check_password password =
    if is_blank password || has_character 10 password || has_character 13 password
    then refused bad_password
    else accepted password

abbrev pub read_password : Option String → Target
read_password none = refused unreadable_file
read_password (some content) = check_password (one_line content)

-- `content` is the text of the password file, `none` where it cannot be read.
unfoldable pub validate_mqtt_target : String → String → ℤ → String → Option String → Target
unfolding one_line
validate_mqtt_target device_id host port username content =
    if has_character 47 device_id || has_character 43 device_id || has_character 35 device_id
    then refused bad_device_id
    else if is_blank host || has_space host
    then refused bad_host
    else if not (is_tcp_port port)
    then refused bad_port
    else if is_blank username || has_character 0 username
    then refused bad_username
    else read_password content

-- How the connection is answered: the library refuses to connect; no acknowledgement comes in time; or
-- one comes, with the broker's reason code.
pub data Connecting : Type 0 where
  not_connected ack_timeout : Connecting
  acknowledged : ℕ → Connecting

-- How a message fares: the library does not take it; no acknowledgement comes in time; or one comes.
pub data Sending : Type 0 where
  not_queued unconfirmed confirmed : Sending

pub data PublishResult : Type 0 where
  published connection_failed connection_timeout connection_rejected publish_failed puback_timeout :
      PublishResult

-- The publisher's state with the calls it has made: connections, and messages given to the library.
pub record MqttPublisher : Type 0 where
  pub started : Bool
  pub connects : ℕ
  pub publishes : ℕ

abbrev pub new_publisher : MqttPublisher
new_publisher = record { started = false; connects = 0; publishes = 0 }

-- The error of `_ensure_connected`, if any.
abbrev pub connection_error : Connecting → Option PublishResult
connection_error not_connected = some connection_failed
connection_error ack_timeout = some connection_timeout
connection_error (acknowledged code) = if nat_eq code 0 then none else some connection_rejected

abbrev pub ensure_connected : Connecting → MqttPublisher → Option PublishResult × MqttPublisher
ensure_connected answer p =
    if p.started
    then (none, p)
    else (connection_error answer, record p { started = true; connects = suc p.connects })

abbrev pub sent_result : Sending → PublishResult
sent_result not_queued = publish_failed
sent_result unconfirmed = puback_timeout
sent_result confirmed = published

abbrev pub send_connected :
    Sending → Option PublishResult × MqttPublisher → PublishResult × MqttPublisher
send_connected sending (some e, p) = (e, p)
send_connected sending (none, p) = (sent_result sending, record p { publishes = suc p.publishes })

unfoldable pub publish : Connecting → Sending → MqttPublisher → PublishResult × MqttPublisher
publish answer sending p = send_connected sending (ensure_connected answer p)
