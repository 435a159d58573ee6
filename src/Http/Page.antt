-- ===== src/Http/Page.antt =====
-- The page of `make_html_body`, as the format prints it: `%%` is one character.
use Prim.Native.Char.{code}
use Prim.Native.String.{String}
use pico_wenvironment_logger.Prelude.{ℕ, List, [], ◌∷◌, ◌++◌}

abbrev pub codes : String → List ℕ
codes String.[] = []
codes (String.◌∷◌ c s) = code c ∷ codes s

abbrev joined : List String → List ℕ
joined [] = []
joined (s ∷ ss) = codes s ++ joined ss

abbrev page_head : List String
page_head =
    "<!DOCTYPE html>"
    ∷ ("<html>"
        ∷ ("<head>"
            ∷ ("<meta charset=\"UTF-8\">"
                ∷ ("<title>PicoW Logger</title>"
                    ∷ ("</head>"
                        ∷ ("<body>"
                            ∷ ("<h1>PicoW Environment Logger</h1>"
                                ∷ ("<p>Temperature: <span id=\"temperature\">--</span> &deg;C</p>"
                                    ∷ ("<p>Humidity: <span id=\"humidity\">--</span> %</p>"
                                        ∷ ("<p>Pressure: <span id=\"pressure\">--</span> hPa</p>"
                                            ∷ ("<p>Status: <span id=\"status\">starting...</span></p>"
                                                ∷ [])))))))))))

abbrev page_fetch : List String
page_fetch =
    "<script>"
    ∷ ("function updateEnv() {"
        ∷ ("fetch('/api/env')"
            ∷ (".then(function(response){"
                ∷ ("return response.json();"
                    ∷ ("})"
                        ∷ (".then(function(data) {"
                            ∷ ("if (data.valid !== true){"
                                ∷ ("document.getElementById('status').textContent = 'Sensor data is not ready';"
                                    ∷ ("return;"
                                        ∷ ("}"
                                            ∷ ("const temperature = Number(data.temperature);"
                                                ∷ [])))))))))))

abbrev page_values : List String
page_values =
    "const humidity = Number(data.humidity);"
    ∷ ("const pressure = Number(data.pressure);"
        ∷ ("document.getElementById('temperature').textContent = temperature.toFixed(2);"
            ∷ ("document.getElementById('humidity').textContent = humidity.toFixed(2);"
                ∷ ("document.getElementById('pressure').textContent = pressure.toFixed(2);"
                    ∷ ("document.getElementById('status').textContent = 'OK';"
                        ∷ ("})"
                            ∷ (".catch(function(error) {"
                                ∷ ("document.getElementById('status').textContent = 'HTTP error';"
                                    ∷ ("});" ∷ ("}" ∷ []))))))))))

abbrev page_end : List String
page_end =
    "updateEnv();"
    ∷ ("setInterval(updateEnv, 5000);" ∷ ("</script>" ∷ ("</body>" ∷ ("</html>" ∷ []))))

unfoldable pub html_page : List ℕ
html_page = joined page_head ++ (joined page_fetch ++ (joined page_values ++ joined page_end))
