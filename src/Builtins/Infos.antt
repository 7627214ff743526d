-- ===== src/Builtins/Infos.antt =====
-- tools/builtins/: what each tool is registered with by `@register_tool`, its name, its description
-- and the schema of its parameters.
use yellowbullv.Shared.{String, List, [], ◌∷◌}
use yellowbullv.Shared.Json.{Json, str, arr, obj, Items, Fields, nil, cons, end, field, fields}
use yellowbullv.Tools.{ParamSchema, ToolInfo}

-- `{"type": …, "description": …}`
abbrev described : String → String → Json
described kind text = obj (field "type" (str kind) (field "description" (str text) end))

abbrev names : List String → Items
names [] = nil
names (n ∷ ns) = cons (str n) (names ns)

-- `{"type": "object", "properties": …, "required": …}`
abbrev pub schema : Fields → List String → ParamSchema
schema props required = record {
  properties = fields props;
  required = required;
  whole = obj (
      field "type" (str "object")
        (field "properties" (obj props) (field "required" (arr (names required)) end)));
}

abbrev pub calculator_info : ToolInfo
calculator_info = record {
  name = "calculator";
  description =
      "Evaluate a mathematical expression. Supports arithmetic, powers, trig functions, etc.";
  parameters =
      schema
        (field "expression"
          (described "string" "Math expression like '2 + 3 * 4', 'sin(3.14)', 'sqrt(16)'") end)
        ("expression" ∷ []);
}

abbrev pub execute_command_info : ToolInfo
execute_command_info = record {
  name = "execute_command";
  description =
      "Execute a shell command and return its output. Supports timeout control and working directory specification.";
  parameters =
      schema
        (field "command" (described "string" "The shell command to execute.") (
          field "workdir"
            (described "string" "Working directory for the command. Default is current directory.")
            (field "timeout" (described "integer" "Timeout in seconds. Default is 60.") end)))
        ("command" ∷ []);
}

abbrev pub create_file_folder_info : ToolInfo
create_file_folder_info = record {
  name = "create_file_folder";
  description =
      "Create a new file or directory. For files, optional initial content can be provided. For directories, supports recursive creation.";
  parameters =
      schema
        (field "path"
          (described "string"
            "Absolute path to create. Must start with a drive letter (e.g., D:\\) or root (/). Relative paths are NOT accepted.")
          (field "kind"
            (obj (
              field "type" (str "string") (
                field "enum" (arr (cons (str "file") (cons (str "directory") nil))) (
                  field "description"
                    (str "Whether to create a file or directory. Default is 'file'.") end))))
            (field "content"
              (described "string" "Initial content for the file. Ignored if kind='directory'.")
              (field "recursive"
                (described "boolean" "Create parent directories if missing. Default is true.")
                end))))
        ("path" ∷ "kind" ∷ []);
}

abbrev pub current_time_info : ToolInfo
current_time_info = record {
  name = "current_time";
  description = "Get the current date and time. Supports specifying a timezone.";
  parameters =
      schema
        (field "timezone"
          (described "string" "Timezone like 'Asia/Shanghai', 'UTC'. Default is UTC.") end)
        ([]);
}

abbrev pub read_file_info : ToolInfo
read_file_info = record {
  name = "read_file";
  description =
      "Read the content of a file from the filesystem. Supports text files and can read specific line ranges.";
  parameters =
      schema
        (field "filepath" (described "string" "Absolute or relative path to the file.") (
          field "start_line" (described "integer" "Start line number (1-indexed). Default is 1.") (
            field "end_line"
              (described "integer" "End line number (inclusive). Omit to read until EOF.")
              (field "max_bytes"
                (described "integer" "Maximum bytes to read. Default is 102400 (100KB).") end))))
        ("filepath" ∷ []);
}

abbrev pub write_file_info : ToolInfo
write_file_info = record {
  name = "write_file";
  description =
      "Write content to a file. Creates parent directories if they don't exist. Supports append mode and force overwrite control.";
  parameters =
      schema
        (field "filepath"
          (described "string"
            "Absolute path to the file. Must start with a drive letter (e.g., D:\\) or root (/). Relative paths are NOT accepted.")
          (field "content" (described "string" "Content to write to the file.") (
            field "append"
              (described "boolean"
                "If true, append to existing file. Default is false (overwrite).")
              (field "create_dirs"
                (described "boolean" "Create parent directories if missing. Default is true.")
                end))))
        ("filepath" ∷ "content" ∷ []);
}

abbrev pub web_search_info : ToolInfo
web_search_info = record {
  name = "web_search";
  description =
      "Search the internet for up-to-date information. Use for news, facts, and real-time queries.";
  parameters =
      schema
        (field "query" (described "string" "Search query keywords")
          (field "max_results" (described "integer" "Number of results to return, default 5") end))
        ("query" ∷ []);
}
