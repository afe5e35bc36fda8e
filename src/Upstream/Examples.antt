-- ===== src/Upstream/Examples.antt =====
-- The theorems on the driver of an OpenCode server at a concrete server.
use opencode_multi_agents.Prelude.{inl, ◌≡◌, refl, true, false, Option, none, some, [], ◌∷◌}
use opencode_multi_agents.Prelude.Text.{bytes_of}
use opencode_multi_agents.Prelude.Bytes.{Bytes}
use opencode_multi_agents.Gateway.Auth.{Auth}
use opencode_multi_agents.Upstream.Client.{Request, Response, Client}
use opencode_multi_agents.Upstream.Cli.{fields_from}
use opencode_multi_agents.Upstream.Server.{ServerBody, ServerJson, ok, rate_limit, do_adapt}
use opencode_multi_agents.Upstream.Messages.{ServerConfig, notice, write_stream}
use opencode_multi_agents.Upstream.Server.Keys.{do_adapt_limited}
use opencode_multi_agents.Upstream.Server.Words.{joined, contents, write_stream-words}

write_stream-words_example :
    fields_from [] (joined (contents (write_stream (bytes_of " one  two "))))
    ≡ fields_from [] (bytes_of " one  two ")
write_stream-words_example = write_stream-words (bytes_of " one  two ")

abbrev json : ServerJson
json = record {
  session_title = bytes_of "t";
  credential_json = λ key. key;
  message_json = λ m. [];
  read_session = λ s. some s;
  read_message = λ s. none;
}

abbrev busy : Response
busy = record { status = 429; retry_after = bytes_of "30"; body = [] }

abbrev always_busy : Bytes → Request → Option Response
always_busy addr req = some busy

abbrev login : Bytes × Bytes → Bytes × Bytes
login pair = (bytes_of "Authorization", pair.1)

abbrev server_config : ServerConfig
server_config = record {
  provider_id = bytes_of "opencode";
  server_model = [];
  server_password = bytes_of "secret";
}

abbrev ask : ServerBody
ask = record { model = bytes_of "opencode/big"; messages = [] }

abbrev no_key : Auth
no_key = record { header = []; value = [] }

abbrev http : Client
http = record { base = bytes_of "http://server"; http_cache = [] }

do_adapt_limited_example :
    ((do_adapt json login always_busy server_config "p1"
        (bytes_of "socks5://h:1")
        ask
        no_key
        false
        http).1
      ≡ rate_limit (bytes_of "30"))
    × ((do_adapt json login always_busy server_config "p1"
          (bytes_of "socks5://h:1")
          ask
          no_key
          true
          http).1
        ≡ ok (notice ∷ []))
do_adapt_limited_example =
    do_adapt_limited json login always_busy server_config "p1" (bytes_of "socks5://h:1") ask no_key
      http busy (refl, inl refl)
