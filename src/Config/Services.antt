-- ===== src/Config/Services.antt =====
-- `LoadConfig` of gateway/config, chat-service/config, notification-service/config,
-- presence-service/config and media-service/config, each in the order of its fields.
use Prim.Native.String.{◌++◌}
use realtime_chat_platform.Prelude.{
  ℕ, String, String_discrete, ℤ, pos, Bool, true, false, not, ◌&&◌, ◌||◌, Option, none, some, List,
  [], ◌∷◌, ite, if◌then◌else◌, ltb, leb, ◌==◌, codes, bytes, length,
}
use realtime_chat_platform.Config.{
  Env, get_env, require_env, get_env_int, get_positive_env_int, get_env_list,
}

pub record Database : Type 0 where
  pub host : String
  pub port : String
  pub user : String
  pub password : String
  pub name : String

-- The five fields of the database, which differ in the defaults.
unfoldable pub database : Env → String → Database
unfolding get_env
database env name = record {
  host = get_env env "DB_HOST" "localhost";
  port = get_env env "DB_PORT" "3307";
  user = get_env env "DB_USER" "root";
  password = get_env env "DB_PASSWORD" "root";
  name = get_env env "DB_NAME" name;
}

pub record GatewayConfig : Type 0 where
  pub db : Database
  pub jwt_secret : String
  pub server_port : String
  pub chat_service_urls : List String
  pub presence_service_url : String
  pub notification_service_url : String
  pub media_service_url : String
  pub lb_health_interval_secs : ℤ
  pub gateway_key : String
  pub edge_cache_max_bytes : ℤ
  pub edge_cache_max_object : ℤ

unfoldable pub load_gateway : Env → Option GatewayConfig
unfolding get_env require_env get_positive_env_int get_env_list database
load_gateway env = elim (require_env env "JWT_SECRET") [
  | none ↦ none
  | some jwt_secret ↦ elim (require_env env "GATEWAY_SHARED_KEY") [
    | none ↦ none
    | some gateway_key ↦ some (record {
      db = database env "chat_gateway_db";
      jwt_secret = jwt_secret;
      server_port = get_env env "SERVER_PORT" "8000";
      chat_service_urls = get_env_list env "CHAT_SERVICE_URLS" ("http://localhost:8001" ∷ []);
      presence_service_url = get_env env "PRESENCE_SERVICE_URL" "http://localhost:8002";
      notification_service_url = get_env env "NOTIFICATION_SERVICE_URL" "http://localhost:8003";
      media_service_url = get_env env "MEDIA_SERVICE_URL" "http://localhost:8004";
      lb_health_interval_secs = get_positive_env_int env "LB_HEALTH_INTERVAL_SECONDS" (pos 5);
      gateway_key = gateway_key;
      edge_cache_max_bytes = get_positive_env_int env "EDGE_CACHE_MAX_BYTES" (pos 0x4000000);
      edge_cache_max_object = get_positive_env_int env "EDGE_CACHE_MAX_OBJECT_BYTES" (pos 0x500000);
    })
  ]
]

pub record ChatConfig : Type 0 where
  pub db : Database
  pub jwt_secret : String
  pub server_port : String
  pub instance_id : String
  pub presence_service_url : String
  pub presence_api_key : String
  pub presence_heartbeat_secs : ℤ
  pub notification_service_url : String
  pub notification_api_key : String
  pub ws_allowed_origins : List String

abbrev pub max_instance_id_length : ℕ
max_instance_id_length = 64

-- The loop of `ValidInstanceID` over the runes.
unfoldable pub all_instance_runes : List ℕ → Bool
all_instance_runes [] = true
all_instance_runes (r ∷ rs) =
    let rest = all_instance_runes rs in
    let is_allowed =
      (leb b'a' r && leb r b'z')
      || ((leb b'A' r && leb r b'Z')
          || ((leb b'0' r && leb r b'9') || ((r == b'_') || ((r == b'-') || (r == b'.'))))) in
    if not is_allowed then false else rest

unfoldable pub valid_instance_id : String → Bool
unfolding all_instance_runes bytes
valid_instance_id instance_id = ite (String_discrete instance_id "") false (
    if ltb max_instance_id_length (length (bytes instance_id))
    then false
    else all_instance_runes (codes instance_id))

-- `INSTANCE_ID` with its default.
unfoldable pub instance_id_of : Env → String
unfolding get_env
instance_id_of env = get_env env "INSTANCE_ID" ("chat-" ++ get_env env "SERVER_PORT" "8001")

-- The configuration once the three secrets are there.
unfoldable pub chat_config : Env → String → String → String → ChatConfig
unfolding get_env get_env_int get_env_list database instance_id_of
chat_config env jwt_secret presence_api_key notification_api_key = record {
  db = database env "chat_service_db";
  jwt_secret = jwt_secret;
  server_port = get_env env "SERVER_PORT" "8001";
  instance_id = instance_id_of env;
  presence_service_url = get_env env "PRESENCE_SERVICE_URL" "http://localhost:8002";
  presence_api_key = presence_api_key;
  presence_heartbeat_secs = get_env_int env "PRESENCE_HEARTBEAT_SECONDS" (pos 30);
  notification_service_url = get_env env "NOTIFICATION_SERVICE_URL" "http://localhost:8003";
  notification_api_key = notification_api_key;
  ws_allowed_origins =
      get_env_list env "WS_ALLOWED_ORIGINS"
        ("http://localhost:3000" ∷ "http://localhost:8000" ∷ []);
}

unfoldable pub load_chat : Env → Option ChatConfig
unfolding require_env valid_instance_id instance_id_of chat_config
load_chat env =
    if not (valid_instance_id (instance_id_of env))
    then none
    else elim (require_env env "JWT_SECRET") [
      | none ↦ none
      | some jwt_secret ↦ elim (require_env env "PRESENCE_API_KEY") [
        | none ↦ none
        | some presence_api_key ↦ elim (require_env env "NOTIFICATION_API_KEY") [
          | none ↦ none
          | some notification_api_key ↦
              some (chat_config env jwt_secret presence_api_key notification_api_key)
        ]
      ]
    ]

pub record NotificationConfig : Type 0 where
  pub db : Database
  pub server_port : String
  pub gateway_key : String
  pub notification_api_key : String
  pub presence_service_url : String
  pub presence_api_key : String
  pub delivery_workers : ℤ

unfoldable pub load_notification : Env → Option NotificationConfig
unfolding get_env require_env get_positive_env_int database
load_notification env = elim (require_env env "GATEWAY_SHARED_KEY") [
  | none ↦ none
  | some gateway_key ↦ elim (require_env env "NOTIFICATION_API_KEY") [
    | none ↦ none
    | some notification_api_key ↦ elim (require_env env "PRESENCE_API_KEY") [
      | none ↦ none
      | some presence_api_key ↦ some (record {
        db = database env "notification_service_db";
        server_port = get_env env "SERVER_PORT" "8003";
        gateway_key = gateway_key;
        notification_api_key = notification_api_key;
        presence_service_url = get_env env "PRESENCE_SERVICE_URL" "http://localhost:8002";
        presence_api_key = presence_api_key;
        delivery_workers = get_positive_env_int env "DELIVERY_WORKERS" (pos 4);
      })
    ]
  ]
]

pub record PresenceConfig : Type 0 where
  pub redis_addr : String
  pub jwt_secret : String
  pub presence_api_key : String
  pub server_port : String
  pub presence_ttl_sec : ℤ

unfoldable pub load_presence : Env → Option PresenceConfig
unfolding get_env require_env get_env_int
load_presence env = elim (require_env env "JWT_SECRET") [
  | none ↦ none
  | some jwt_secret ↦ elim (require_env env "PRESENCE_API_KEY") [
    | none ↦ none
    | some presence_api_key ↦ some (record {
      redis_addr = get_env env "REDIS_ADDR" "localhost:6380";
      jwt_secret = jwt_secret;
      presence_api_key = presence_api_key;
      server_port = get_env env "SERVER_PORT" "8002";
      presence_ttl_sec = get_env_int env "PRESENCE_TTL_SECONDS" (pos 90);
    })
  ]
]

pub record MediaConfig : Type 0 where
  pub server_port : String
  pub media_dir : String
  pub gateway_key : String
  pub max_upload_byte : ℤ

unfoldable pub load_media : Env → Option MediaConfig
unfolding get_env require_env get_positive_env_int
load_media env = elim (require_env env "GATEWAY_SHARED_KEY") [
  | none ↦ none
  | some gateway_key ↦ some (record {
    server_port = get_env env "SERVER_PORT" "8004";
    media_dir = get_env env "MEDIA_DIR" "./data/media";
    gateway_key = gateway_key;
    max_upload_byte = get_positive_env_int env "MAX_UPLOAD_BYTES" (pos 0x500000);
  })
]
