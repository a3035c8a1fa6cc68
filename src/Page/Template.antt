-- ===== src/Page/Template.antt =====
-- `DASHBOARD_HTML` of app/views/templates/dashboard.py, line by line, cut at its eight placeholders.
use rate_guardian.Base.{◌≡◌, refl, true, [], ◌∷◌}
use rate_guardian.Page.Text.{Text, join_lines, is_plain}

pub head_html : Text
unfolding join_lines
head_html = join_lines (
    "<!DOCTYPE html>" ∷ "<html lang=\"en\">" ∷ "<head>" ∷ "  <meta charset=\"UTF-8\">"
    ∷ "  <meta name=\"viewport\" content=\"width=device-width, initial-scale=1.0\">"
    ∷ "  <meta http-equiv=\"refresh\" content=\"5\">"
    ∷ "  <title>RATE GUARDIAN // DASHBOARD</title>"
    ∷ "  <link href=\"https://fonts.googleapis.com/css2?family=VT323&family=Share+Tech+Mono&display=swap\" rel=\"stylesheet\">"
    ∷ "  <style>" ∷ "    :root {" ∷ "      --green: #15ff00; --dim: #0a8f00; --bright: #39ff14;"
    ∷ "      --red: #ff4444;   --yellow: #ffcc00;"
    ∷ "      --bg: #080808;    --glow: 0 0 8px #15ff00, 0 0 2px #15ff00;" ∷ "    }"
    ∷ "    * { box-sizing: border-box; margin: 0; padding: 0; }"
    ∷ "    html, body { background: var(--bg); color: var(--green); font-family: 'Share Tech Mono', monospace; min-height: 100vh; }"
    ∷ "    .terminal  { max-width: 1000px; margin: 0 auto; padding: 32px 24px 60px; }"
    ∷ "    .title     { font-family: 'VT323', monospace; font-size: clamp(2rem,6vw,3rem); color: var(--bright); text-shadow: var(--glow); letter-spacing: 4px; }"
    ∷ "    .subtitle  { font-size: 0.72rem; color: var(--dim); letter-spacing: 2px; margin-top: 4px; margin-bottom: 24px; }"
    ∷ "    hr  { border: none; border-top: 1px solid var(--dim); margin: 18px 0; }"
    ∷ "    .line { margin: 4px 0; font-size: 0.88rem; }" ∷ "    .label { color: var(--dim); }"
    ∷ "    .value { color: var(--bright); }"
    ∷ "    .ok .value::before { content: \"[OK] \"; color: var(--green); }" ∷ ""
    ∷ "    .section-title { font-family: 'VT323', monospace; font-size: 1.35rem; color: var(--bright); letter-spacing: 2px; margin-bottom: 10px; }"
    ∷ "    .box  { border: 1px solid var(--dim); background: rgba(21,255,0,0.02); padding: 14px 18px; margin: 16px 0; }"
    ∷ "" ∷ "    /* Grid layout */"
    ∷ "    .grid-2 { display: grid; grid-template-columns: 1fr 1fr; gap: 16px; }"
    ∷ "    @media (max-width: 640px) { .grid-2 { grid-template-columns: 1fr; } }" ∷ ""
    ∷ "    /* Tables */"
    ∷ "    table  { width: 100%; border-collapse: collapse; font-size: 0.82rem; }"
    ∷ "    th     { color: var(--dim); text-transform: uppercase; font-size: 0.68rem; letter-spacing: 1px; padding: 3px 6px; border-bottom: 1px solid var(--dim); text-align: left; }"
    ∷ "    td     { padding: 4px 6px; border-bottom: 1px solid rgba(21,255,0,0.06); }"
    ∷ "    .mono-overflow { max-width: 240px; overflow: hidden; text-overflow: ellipsis; white-space: nowrap; }"
    ∷ "" ∷ "    /* Stat cards */"
    ∷ "    .stats-row { display: flex; gap: 12px; flex-wrap: wrap; margin-bottom: 4px; }"
    ∷ "    .stat-card { border: 1px solid var(--dim); padding: 10px 16px; flex: 1; min-width: 110px; }"
    ∷ "    .stat-num  { font-family: 'VT323', monospace; font-size: 2.2rem; color: var(--bright); line-height: 1; text-shadow: var(--glow); }"
    ∷ "    .stat-lbl  { font-size: 0.65rem; color: var(--dim); letter-spacing: 1px; text-transform: uppercase; margin-top: 2px; }"
    ∷ "    .stat-card.danger .stat-num { color: var(--red); text-shadow: 0 0 8px var(--red); }" ∷ ""
    ∷ "    /* Gauge */" ∷ "    .gauge-box  { text-align: center; padding: 10px; }"
    ∷ "    .gauge-lbl  { font-size: 0.7rem; color: var(--dim); letter-spacing: 2px; text-transform: uppercase; margin-top: 4px; }"
    ∷ "" ∷ "    /* Buttons */"
    ∷ "    .btn { border: 1px solid var(--green); color: var(--green); background: transparent; padding: 6px 16px; font-family: 'Share Tech Mono', monospace; font-size: 0.8rem; cursor: pointer; text-decoration: none; letter-spacing: 1px; text-transform: uppercase; }"
    ∷ "    .btn:hover { background: rgba(21,255,0,0.1); color: var(--bright); }"
    ∷ "    .actions { display: flex; gap: 12px; flex-wrap: wrap; margin-top: 16px; }" ∷ ""
    ∷ "    /* Refresh indicator */"
    ∷ "    .refresh { font-size: 0.68rem; color: var(--dim); float: right; }"
    ∷ "    .cursor  { display: inline-block; width: 9px; height: 1em; background: var(--green); animation: blink 1s step-end infinite; vertical-align: text-bottom; margin-left: 3px; }"
    ∷ "    @keyframes blink { 0%,100%{opacity:1} 50%{opacity:0} }"
    ∷ "    .footer  { margin-top: 36px; font-size: 0.68rem; color: var(--dim); }" ∷ ""
    ∷ "    /* Form */"
    ∷ "    .form-row { display: flex; align-items: center; gap: 10px; margin: 7px 0; flex-wrap: wrap; }"
    ∷ "    .form-row label { color: var(--dim); font-size: 0.74rem; min-width: 120px; text-transform: uppercase; letter-spacing: 1px; }"
    ∷ "    .form-row input, .form-row select {"
    ∷ "      background: rgba(21,255,0,0.04); border: 1px solid var(--dim);"
    ∷ "      color: var(--green); font-family: 'Share Tech Mono', monospace;"
    ∷ "      font-size: 0.82rem; padding: 4px 10px; outline: none; flex: 1; min-width: 150px;"
    ∷ "    }" ∷ "    .form-row input:focus, .form-row select:focus { border-color: var(--bright); }"
    ∷ "    .form-row select option { background: #080808; }"
    ∷ "    .msg { font-size: 0.78rem; margin-top: 6px; padding: 4px 10px; min-height: 1.2em; }"
    ∷ "    .msg.ok  { color: var(--bright); border-left: 2px solid var(--bright); }"
    ∷ "    .msg.err { color: var(--red);    border-left: 2px solid var(--red); }" ∷ "  </style>"
    ∷ "</head>" ∷ "<body>" ∷ "<div class=\"terminal\">" ∷ ""
    ∷ "  <span class=\"refresh\">AUTO-REFRESH: 5s</span>"
    ∷ "  <div class=\"title\">RATE GUARDIAN</div>"
    ∷ "  <div class=\"subtitle\">API GATEWAY &mdash; LIVE DASHBOARD &mdash; LAST 5 MIN</div>" ∷ ""
    ∷ "  <div class=\"line ok\"><span class=\"label\">SYSTEM &nbsp;&nbsp;&nbsp;</span><span class=\"value\">ONLINE</span></div>"
    ∷ "  <div class=\"line ok\"><span class=\"label\">GATEWAY &nbsp;&nbsp;</span><span class=\"value\">ACTIVE</span></div>"
    ∷ "  <div class=\"line\"><span class=\"label\">UPTIME &nbsp;&nbsp;&nbsp;</span><span class=\"value\" id=\"uptime\">00:00:00</span></div>"
    ∷ "" ∷ "  <hr>" ∷ ""
    ∷ "  <!-- ── SATURATION GAUGE + STATS ─────────────────────────────────────────── -->"
    ∷ "  <div class=\"grid-2\">" ∷ "" ∷ "    <div class=\"box gauge-box\">"
    ∷ "      <div class=\"section-title\">&gt; API SATURATION</div>" ∷ "      " ∷ [])

pub before_total_html : Text
unfolding join_lines
before_total_html = join_lines (
    "" ∷ "      <div class=\"gauge-lbl\">blocked / total requests</div>" ∷ "    </div>" ∷ ""
    ∷ "    <div class=\"box\">" ∷ "      <div class=\"section-title\">&gt; STATS</div>"
    ∷ "      <div class=\"stats-row\">" ∷ "        <div class=\"stat-card\">"
    ∷ "          <div class=\"stat-num\">" ∷ [])

pub before_allowed_html : Text
unfolding join_lines
before_allowed_html = join_lines (
    "</div>" ∷ "          <div class=\"stat-lbl\">Total req</div>" ∷ "        </div>"
    ∷ "        <div class=\"stat-card\">" ∷ "          <div class=\"stat-num\">" ∷ [])

pub before_blocked_html : Text
unfolding join_lines
before_blocked_html = join_lines (
    "</div>" ∷ "          <div class=\"stat-lbl\">Allowed</div>" ∷ "        </div>"
    ∷ "        <div class=\"stat-card danger\">" ∷ "          <div class=\"stat-num\">" ∷ [])

pub before_latency_html : Text
unfolding join_lines
before_latency_html = join_lines (
    "</div>" ∷ "          <div class=\"stat-lbl\">Blocked</div>" ∷ "        </div>" ∷ "      </div>"
    ∷ "      <div class=\"stats-row\" style=\"margin-top:8px\">"
    ∷ "        <div class=\"stat-card\">" ∷ "          <div class=\"stat-num\">" ∷ [])

pub before_saturation_html : Text
unfolding join_lines
before_saturation_html = join_lines (
    "<span style=\"font-size:1rem\">ms</span></div>"
    ∷ "          <div class=\"stat-lbl\">Avg latency</div>" ∷ "        </div>"
    ∷ "        <div class=\"stat-card\">" ∷ "          <div class=\"stat-num\">" ∷ [])

pub before_logs_html : Text
unfolding join_lines
before_logs_html = join_lines (
    "<span style=\"font-size:1rem\">%</span></div>"
    ∷ "          <div class=\"stat-lbl\">Sat. rate</div>" ∷ "        </div>" ∷ "      </div>"
    ∷ "    </div>" ∷ "" ∷ "  </div>" ∷ ""
    ∷ "  <!-- ── LOGS + TOP IPs ────────────────────────────────────────────────────── -->"
    ∷ "  <div class=\"grid-2\">" ∷ "" ∷ "    <div class=\"box\">"
    ∷ "      <div class=\"section-title\">&gt; RECENT REQUESTS</div>" ∷ "      <table>"
    ∷ "        <thead><tr><th>Time</th><th>Method</th><th>Path</th><th>Status</th><th>Lat</th><th>Result</th></tr></thead>"
    ∷ "        <tbody>" ∷ [])

pub before_top_ips_html : Text
unfolding join_lines
before_top_ips_html = join_lines (
    "</tbody>" ∷ "      </table>" ∷ "    </div>" ∷ "" ∷ "    <div class=\"box\">"
    ∷ "      <div class=\"section-title\">&gt; TOP IPs (1h)</div>" ∷ "      <table>"
    ∷ "        <thead><tr><th>IP</th><th>Requests</th></tr></thead>" ∷ "        <tbody>" ∷ [])

pub tail_html : Text
unfolding join_lines
tail_html = join_lines (
    "</tbody>" ∷ "      </table>" ∷ "    </div>" ∷ "" ∷ "  </div>" ∷ ""
    ∷ "  <!-- ── ADD RULE FORM ─────────────────────────────────────────────────────── -->"
    ∷ "  <div class=\"box\">" ∷ "    <div class=\"section-title\">&gt; ADD RATE LIMIT RULE</div>"
    ∷ "    <form id=\"rule-form\" onsubmit=\"submitRule(event)\">"
    ∷ "      <div class=\"form-row\">" ∷ "        <label>NAME</label>"
    ∷ "        <input type=\"text\" id=\"r-name\" placeholder=\"e.g. Limit /api/posts\" required>"
    ∷ "      </div>" ∷ "      <div class=\"form-row\">" ∷ "        <label>PATH PATTERN</label>"
    ∷ "        <input type=\"text\" id=\"r-path\" placeholder=\"e.g. /proxy/*/posts*\" required>"
    ∷ "      </div>" ∷ "      <div class=\"form-row\">" ∷ "        <label>LIMIT</label>"
    ∷ "        <input type=\"number\" id=\"r-limit\" placeholder=\"e.g. 10\" min=\"1\" required>"
    ∷ "        <span style=\"color:var(--dim);font-size:0.75rem\">requests per window</span>"
    ∷ "      </div>" ∷ "      <div class=\"form-row\">" ∷ "        <label>WINDOW (sec)</label>"
    ∷ "        <input type=\"number\" id=\"r-window\" placeholder=\"e.g. 60\" min=\"1\" required>"
    ∷ "      </div>" ∷ "      <div class=\"form-row\">" ∷ "        <label>KEY TYPE</label>"
    ∷ "        <select id=\"r-key\">" ∷ "          <option value=\"ip\">Per IP</option>"
    ∷ "          <option value=\"global\">Global</option>" ∷ "        </select>" ∷ "      </div>"
    ∷ "      <div class=\"form-row\" style=\"margin-top:8px\">"
    ∷ "        <button class=\"btn\" type=\"submit\">&gt; CREATE RULE</button>" ∷ "      </div>"
    ∷ "      <div id=\"rule-msg\" class=\"msg\"></div>" ∷ "    </form>" ∷ "  </div>" ∷ ""
    ∷ "  <!-- ── ACTIVE RULES ──────────────────────────────────────────────────────── -->"
    ∷ "  <div class=\"box\">" ∷ "    <div class=\"section-title\">&gt; ACTIVE RULES</div>"
    ∷ "    <div id=\"rules-list\"><span style=\"color:var(--dim);font-size:0.8rem\">Loading...</span></div>"
    ∷ "  </div>" ∷ "" ∷ "  <div class=\"actions\">"
    ∷ "    <a class=\"btn\" href=\"/docs\">&gt; API DOCS</a>"
    ∷ "    <a class=\"btn\" href=\"/logs\">&gt; ALL LOGS (JSON)</a>"
    ∷ "    <a class=\"btn\" href=\"/dashboard\">&gt; STATS JSON</a>" ∷ "  </div>" ∷ "" ∷ "  <hr>"
    ∷ "  <div class=\"line\"><span style=\"color:var(--dim)\">&gt; MONITORING ACTIVE</span><span class=\"cursor\"></span></div>"
    ∷ "  <div class=\"footer\">RATE GUARDIAN &mdash; BUILT BY FEDERICO MOROZ</div>" ∷ "</div>" ∷ ""
    ∷ "<script>" ∷ "  // Uptime" ∷ "  const t0 = Date.now();" ∷ "  setInterval(() => {"
    ∷ "    const s = Math.floor((Date.now()-t0)/1000);"
    ∷ "    const p = n => String(n).padStart(2,'0');"
    ∷ "    document.getElementById('uptime').textContent ="
    ∷ "      p(Math.floor(s/3600))+':'+p(Math.floor((s%3600)/60))+':'+p(s%60);" ∷ "  }, 1000);" ∷ ""
    ∷ "  // Rules" ∷ "  async function loadRules() {"
    ∷ "    const el = document.getElementById('rules-list');" ∷ "    try {"
    ∷ "      const data = await fetch('/rules').then(r => r.json());"
    ∷ "      if (!data.length) { el.innerHTML='<span style=\"color:var(--dim);font-size:0.8rem\">No rules configured.</span>'; return; }"
    ∷ "      el.innerHTML = `" ∷ "        <table>"
    ∷ "          <thead><tr><th>Name</th><th>Pattern</th><th>Limit</th><th>Window</th><th>Key</th><th>Status</th><th></th></tr></thead>"
    ∷ "          <tbody>" ∷ "            ${data.map(r => `" ∷ "              <tr>"
    ∷ "                <td style=\"color:var(--bright)\">${r.name}</td>"
    ∷ "                <td style=\"color:var(--dim)\">${r.path_pattern}</td>"
    ∷ "                <td>${r.limit}</td>" ∷ "                <td>${r.window_seconds}s</td>"
    ∷ "                <td>${r.key_type}</td>"
    ∷ "                <td style=\"color:${r.active ? 'var(--green)':'var(--dim)'}\">${r.active ? 'ACTIVE':'OFF'}</td>"
    ∷ "                <td style=\"display:flex;gap:6px\">"
    ∷ "                  <button class=\"btn\" style=\"font-size:0.68rem;padding:2px 8px\""
    ∷ "                    onclick=\"toggleRule(${r.id})\">&gt; TOGGLE</button>"
    ∷ "                  <button class=\"btn\" style=\"font-size:0.68rem;padding:2px 8px;border-color:var(--red);color:var(--red)\""
    ∷ "                    onclick=\"deleteRule(${r.id})\">&gt; DEL</button>"
    ∷ "                </td>" ∷ "              </tr>`).join('')}" ∷ "          </tbody>"
    ∷ "        </table>`;"
    ∷ "    } catch { el.innerHTML='<span style=\"color:var(--red)\">Error loading rules.</span>'; }"
    ∷ "  }" ∷ "" ∷ "  async function submitRule(e) {" ∷ "    e.preventDefault();"
    ∷ "    const msg = document.getElementById('rule-msg');" ∷ "    try {"
    ∷ "      const res = await fetch('/rules', {" ∷ "        method: 'POST',"
    ∷ "        headers: {'Content-Type':'application/json'}," ∷ "        body: JSON.stringify({"
    ∷ "          name:           document.getElementById('r-name').value,"
    ∷ "          path_pattern:   document.getElementById('r-path').value,"
    ∷ "          limit:          parseInt(document.getElementById('r-limit').value),"
    ∷ "          window_seconds: parseInt(document.getElementById('r-window').value),"
    ∷ "          key_type:       document.getElementById('r-key').value," ∷ "        })"
    ∷ "      });" ∷ "      if (res.ok) {"
    ∷ "        msg.className='msg ok'; msg.textContent='[OK] Rule created.';"
    ∷ "        e.target.reset(); loadRules();"
    ∷ "        setTimeout(()=>{ msg.textContent=''; msg.className='msg'; }, 4000);"
    ∷ "      } else {" ∷ "        const err = await res.json();"
    ∷ "        msg.className='msg err'; msg.textContent='[ERR] '+(err.detail||'Error.');"
    ∷ "      }" ∷ "    } catch { msg.className='msg err'; msg.textContent='[ERR] Network error.'; }"
    ∷ "  }" ∷ "" ∷ "  async function toggleRule(id) {"
    ∷ "    await fetch(`/rules/${id}/toggle`, {method:'PATCH'});" ∷ "    loadRules();" ∷ "  }" ∷ ""
    ∷ "  async function deleteRule(id) {" ∷ "    await fetch(`/rules/${id}`, {method:'DELETE'});"
    ∷ "    loadRules();" ∷ "  }" ∷ "" ∷ "  loadRules();" ∷ "</script>" ∷ "</body>" ∷ "</html>" ∷ [])

pub is_plain-head_html : is_plain head_html ≡ true
unfolding head_html is_plain join_lines
is_plain-head_html = refl

pub is_plain-before_total_html : is_plain before_total_html ≡ true
unfolding before_total_html is_plain join_lines
is_plain-before_total_html = refl

pub is_plain-before_allowed_html : is_plain before_allowed_html ≡ true
unfolding before_allowed_html is_plain join_lines
is_plain-before_allowed_html = refl

pub is_plain-before_blocked_html : is_plain before_blocked_html ≡ true
unfolding before_blocked_html is_plain join_lines
is_plain-before_blocked_html = refl

pub is_plain-before_latency_html : is_plain before_latency_html ≡ true
unfolding before_latency_html is_plain join_lines
is_plain-before_latency_html = refl

pub is_plain-before_saturation_html : is_plain before_saturation_html ≡ true
unfolding before_saturation_html is_plain join_lines
is_plain-before_saturation_html = refl

pub is_plain-before_logs_html : is_plain before_logs_html ≡ true
unfolding before_logs_html is_plain join_lines
is_plain-before_logs_html = refl

pub is_plain-before_top_ips_html : is_plain before_top_ips_html ≡ true
unfolding before_top_ips_html is_plain join_lines
is_plain-before_top_ips_html = refl

pub is_plain-tail_html : is_plain tail_html ≡ true
unfolding tail_html is_plain join_lines
is_plain-tail_html = refl

pub before_top_ips_html-begins : (s : Text) × (before_top_ips_html ≡ b'<' ∷ s)
unfolding before_top_ips_html join_lines
before_top_ips_html-begins = (_, refl)
