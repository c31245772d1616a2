-- ===== src/WebServer/Request/Plain.antt =====
-- A request without a body is understood.
use idf_custom_arduino.Base.{ℕ, false, List}
use idf_custom_arduino.WebServer.Arguments.Fields.{IsStrings, fields, parsed_fields}
use idf_custom_arduino.WebServer.Routes.{Handler, find_handler}
use idf_custom_arduino.WebServer.Request.{Reader, Texts, Methods, Request, clear_values, atoi}
use idf_custom_arduino.WebServer.Request.Lines.{Header, IsReader, collected, host_of}

module _ (txt : Texts) (law : IsStrings txt.strings) (methods : Methods) {W : Type 0}
    (reader : Reader W) (pending : W → List ℕ) (reads : IsReader reader pending) where
  -- The request as it is understood.
  abbrev pub understood :
      List Handler → ℕ → List ℕ → List ℕ → List ℕ → List Header → W → Request W → Request W
  understood handlers method uri query version hs w q = record q {
    current_version = atoi version;
    current_uri = uri;
    current_method = method;
    chunked = false;
    current_args = parsed_fields (fields query);
    current_headers = collected txt law reader pending reads hs (clear_values q.current_headers);
    host_header = host_of txt law reader pending reads hs q.host_header;
    current_handler = find_handler handlers method uri;
    conn = w;
  }
